-- ===== src/Tests/Scripts.antt =====
-- Scripts, attribute values and collations: runs, and the theorems applied to them.
use rust_sqlpackage.Prelude.{
  String, ◌≡◌, refl, false, some, List, [], ◌∷◌, ◌++◌, map, arith, Text, codes,
  eq_ignore_ascii_case, trim_matches, trim,
}
use rust_sqlpackage.Batches.{Batch, split_batches, scan_comments}
use rust_sqlpackage.Batches.Lines.{split_inclusive, strip_line_end, strip_suffix, count_newlines}
use rust_sqlpackage.Batches.Grouped.{group, split_batches-group}
use rust_sqlpackage.Batches.Located.{AllLocated, split_batches-Located}
use rust_sqlpackage.Batches.Joined.{Part, script, batches_from, split_batches-script}
use rust_sqlpackage.Util.{any}
use rust_sqlpackage.Identifier.Qualified.{begins_with}
use rust_sqlpackage.Xml.{Event, Writer, escape_newlines_for_attr, normalize_script_content}
use rust_sqlpackage.Xml.Tree.{
  Call, schema, references, script_property, elements_of, events_all, write_calls, write_all,
  write_calls-events,
}
use rust_sqlpackage.Xml.Escape.{read_value, tab_as_space, read_value-escape_newlines_for_attr}
use rust_sqlpackage.Xml.LineEndings.{to_crlf, normalize_script_content-to_crlf}
use rust_sqlpackage.Commas.{split_by_top_level_comma_simple}
use rust_sqlpackage.Commas.Parts.{
  AreParts, nil, char, parens, join_commas, split_by_top_level_comma_simple-join_commas,
}
use rust_sqlpackage.Collation.{parse_lcid, lcid_or_default}
use rust_sqlpackage.Collation.Table.{collation_lcid_map}
use rust_sqlpackage.Collation.Longest.{
  longest_match, malayalam, parse_lcid-longest_match, parse_lcid-Malayalam,
}

abbrev line : String → Text
line s = codes s ++ 10 ∷ []

-- A separator in a comment, and one that ends the first batch.
abbrev sample : Text
sample = line "SELECT 1 /*" ++ line "GO" ++ line "*/" ++ line "go;" ++ codes "SELECT 2"

test_sample : map (λ b. b.start_line) (split_batches sample) ≡ 1 ∷ 5 ∷ []
unfolding split_batches split_inclusive strip_line_end strip_suffix scan_comments
    eq_ignore_ascii_case trim_matches rust_sqlpackage.Batches.split_lines
    rust_sqlpackage.Batches.split_line rust_sqlpackage.Batches.next_pos
    rust_sqlpackage.Batches.add_remaining
test_sample = refl

split_batches-group_example : split_batches sample ≡ group false 1 [] 1 (split_inclusive sample)
split_batches-group_example = split_batches-group sample

split_batches-Located_example : AllLocated sample (split_batches sample)
split_batches-Located_example = split_batches-Located sample

abbrev parts : List Part
parts =
    record { body = codes "SELECT 1" ∷ codes "/* GO" ∷ codes "*/" ∷ []; separator = codes " Go " }
    ∷ record { body = codes "-- /*" ∷ []; separator = codes "GO;" }
    ∷ []

split_batches-script_example : split_batches (script parts) ≡ batches_from 1 parts
unfolding count_newlines strip_line_end strip_suffix scan_comments eq_ignore_ascii_case trim_matches
split_batches-script_example = split_batches-script parts (
  (refl, (refl, refl, (refl, refl, (refl, refl, refl))), refl, refl),
  ((refl, (refl, refl, refl), refl, refl), tt),
)

-- A writer that notes the events.
abbrev log : Writer (List Event)
log = record { write_event = λ w e. some (w ++ e ∷ []) }

abbrev calls : List Call
calls =
    schema (codes "dbo")
    ∷ references (codes "Columns") (codes "[a]" ∷ codes "[b]" ∷ [])
    ∷ script_property (codes "BodyScript") (codes "SELECT 1")
    ∷ []

write_calls-events_example :
    write_calls log calls [] ≡ write_all log (events_all (elements_of calls) []) []
write_calls-events_example = write_calls-events log calls []

abbrev value : Text
value = codes "a < \"b\" & c" ++ 9 ∷ 10 ∷ 13 ∷ []

read_value-escape_newlines_for_attr_example :
    read_value 14 (escape_newlines_for_attr value) ≡ some (map tab_as_space value)
read_value-escape_newlines_for_attr_example =
    read_value-escape_newlines_for_attr 14 value (omega arith)

normalize_script_content-to_crlf_example :
    normalize_script_content (to_crlf (line "SELECT 1" ++ codes "GO"))
    ≡ line "SELECT 1" ++ codes "GO"
unfolding any
normalize_script_content-to_crlf_example =
    normalize_script_content-to_crlf (line "SELECT 1" ++ codes "GO") refl

parse_lcid-longest_match_example :
    parse_lcid (codes "Latin1_General_CI_AS")
    ≡ lcid_or_default (longest_match collation_lcid_map (codes "Latin1_General_CI_AS"))
unfolding begins_with
parse_lcid-longest_match_example = parse_lcid-longest_match (codes "Latin1_General_CI_AS") refl

parse_lcid-Malayalam_example :
    (parse_lcid (malayalam ++ codes "_100_CI_AS") ≡ 1086)
    × (lcid_or_default (longest_match collation_lcid_map (malayalam ++ codes "_100_CI_AS")) ≡ 1100)
parse_lcid-Malayalam_example = parse_lcid-Malayalam (codes "_100_CI_AS")

abbrev definitions : List Text
definitions = codes "a b" ∷ codes " c(1,(2))" ∷ []

definitions-AreParts : AreParts definitions
unfolding trim_matches
definitions-AreParts = (
  char b'a' refl refl refl (char b' ' refl refl refl (char b'b' refl refl refl nil)),
  refl,
  (
    char b' ' refl refl refl (
        char b'c' refl refl refl (
          parens (codes "1,(2)")
            (char b'1' refl refl
              (char b',' refl refl (parens (codes "2") (char b'2' refl refl nil) nil)))
            nil)),
    refl,
    tt,
  ),
)

split_by_top_level_comma_simple-join_commas_example :
    split_by_top_level_comma_simple (join_commas definitions) ≡ map trim definitions
split_by_top_level_comma_simple-join_commas_example =
    split_by_top_level_comma_simple-join_commas definitions definitions-AreParts
