-- ===== src/Tests.antt =====
-- Runs of the models on concrete tokens, and the theorems applied to them. The statements' parsers
-- have theirs in `Statements` and `Principals`, names in `Texts`, scripts, values and the registry in
-- `Scripts` and `Registry`, and `Spacing` shows statements in ordinary spacing.
mod Statements
mod Texts
mod Scripts
mod Principals
mod Registry
mod Definitions
mod Indexes
mod Spacing
use rust_sqlpackage.Prelude.{
  ℕ, zero, suc, ◌+◌, ◌-◌, ◌*◌, ◌^◌, ◌/◌, ◌%◌, ◌≤◌, ◌<◌, min, String, ◌≡◌, refl, sym, ap, ◌∙◌, ◌≢◌,
  ◌↔◌, ◌⊎◌, inl, inr, Bool, true, false, not, ◌&&◌, ◌||◌, Option, none, some, List, [], ◌∷◌, ◌++◌,
  map, append-nil, append_assoc, arith, ltb, leb, ◌==◌, if◌then◌else◌, ltb→lt, lt→ltb, leb→le,
  ==_iff, tests, Bool-cases, Option-cases, length, get_elem?, head?, is_nil, take, drop, take_while,
  drop_while, length-append, take-append-drop, length-take, length-drop, take-take, get_elem?_past,
  take_all, get_elem?-append, drop-append, take-append, take_while-append-drop_while, Text, codes,
  to_ascii_lowercase, to_ascii_uppercase, eq_ignore_ascii_case, is_whitespace, trim_matches, trim,
  ℤ, pos, negsuc, parse_i64, parse_u64, neg_i64,
}
use rust_sqlpackage.Token.{
  Token, Word, word, number, whitespace, comma, l_paren, r_paren, plus, discriminant,
  is_whitespace_token, Sqlparser,
}
use rust_sqlpackage.TokenParser.{
  TokenParser, from_tokens, skip_whitespace, is_at_end, is_keyword, is_word_ci,
}
use rust_sqlpackage.TokenParser.Method.{Method, calls}
use rust_sqlpackage.TokenParser.Bounds.{Moves}
use rust_sqlpackage.TokenParser.Bounds.Methods.Calls.{calls-Moves}
use rust_sqlpackage.TokenParser.Cursor.{cursor, blanks, skip_blank, skip_whitespace-cursor}
use rust_sqlpackage.TokenParser.Groups.{skip_parenthesized, consume_parenthesized, concat_tokens}
use rust_sqlpackage.TokenParser.Groups.Balanced.{
  Balanced, nil, plain, group, group_of, skip_parenthesized-Balanced,
  consume_parenthesized-Balanced,
}
use rust_sqlpackage.TokenParser.Groups.Sound.{Consumed, consume_parenthesized-Consumed}
use rust_sqlpackage.TokenParser.Listed.{parse_string_list}
use rust_sqlpackage.TokenParser.Listed.Values.{listed_strings, parse_string_list-listed_strings}
use rust_sqlpackage.Util.{contains_ci}
use rust_sqlpackage.Preprocess.{preprocess, run, step}
use rust_sqlpackage.Preprocess.Scan.{needs_preprocessing, has_trailing_comma, binary, default}
use rust_sqlpackage.Preprocess.Scan.Complete.{needs_preprocessing-contains_ci}
use rust_sqlpackage.Preprocess.Steps.{
  try_parse_binary_max, binary_max_sentinel, try_parse_default_for, parse_parenthesized_expression,
  is_string_token, closes_after_blanks,
}
use rust_sqlpackage.Preprocess.Replace.{cow_text, max_type, try_parse_binary_max-max_type}
use rust_sqlpackage.Preprocess.Extract.{
  Gaps, default_for, parse_parenthesized_expression-Balanced, try_parse_default_for-default_for,
}
use rust_sqlpackage.Preprocess.Copy.{AllCopied, state, preprocess-AllCopied}
use rust_sqlpackage.Preprocess.Lost.{step_lost}
use rust_sqlpackage.Preprocess.Ends.{run-is_at_end}
use rust_sqlpackage.Identifier.Format.{format_token_sql_cow}

abbrev pub lib : Sqlparser
lib = record {
  tokenize = λ s. none;
  display = λ t. codes "<token>";
  debug = λ t. codes "Token";
  to_uppercase = map to_ascii_uppercase;
}

abbrev pub bare : String → Word
bare s = record { value = codes s; quote_style = none; keyword = s }

abbrev pub space : Token
space = whitespace (codes " ")

-- `f(x)+(y)`
abbrev nested : List Token
nested =
    word (bare "f")
    ∷ l_paren
    ∷ word (bare "x")
    ∷ r_paren
    ∷ plus
    ∷ l_paren
    ∷ word (bare "y")
    ∷ r_paren
    ∷ []

nested-Balanced : Balanced nested
unfolding discriminant
nested-Balanced = plain refl refl (
    group l_paren r_paren (word (bare "x") ∷ []) (plus ∷ l_paren ∷ word (bare "y") ∷ r_paren ∷ [])
      refl refl (plain refl refl nil)
      (plain refl refl
        (group l_paren r_paren (word (bare "y") ∷ []) [] refl refl (plain refl refl nil) nil)))

abbrev before : List Token
before = word (bare "CHECK") ∷ []

abbrev tail : List Token
tail = comma ∷ space ∷ []

abbrev in_group : TokenParser
in_group = cursor before (l_paren ∷ (nested ++ r_paren ∷ tail))

abbrev behind_group : TokenParser
behind_group = cursor (before ++ group_of nested) tail

consume_parenthesized-Balanced_example :
    consume_parenthesized lib in_group ≡ (some (concat_tokens lib (group_of nested)), behind_group)
consume_parenthesized-Balanced_example =
    consume_parenthesized-Balanced nested-Balanced before tail lib

consume_parenthesized-Consumed_example :
    Consumed lib before
      (l_paren ∷ (nested ++ r_paren ∷ tail))
      (concat_tokens lib (group_of nested))
      behind_group
consume_parenthesized-Consumed_example =
    consume_parenthesized-Consumed lib before (l_paren ∷ (nested ++ r_paren ∷ tail))
      (concat_tokens lib (group_of nested)) behind_group
      (consume_parenthesized-Balanced nested-Balanced before tail lib)

abbrev some_calls : List Method
some_calls =
    Method.parse_schema_qualified_name ∷ Method.skip_parenthesized ∷ Method.advance_by 100 ∷ []

calls-Moves_example :
    Moves
      (from_tokens (before ++ (l_paren ∷ (nested ++ r_paren ∷ tail))))
      (calls lib some_calls (from_tokens (before ++ (l_paren ∷ (nested ++ r_paren ∷ tail)))))
calls-Moves_example =
    calls-Moves lib some_calls (from_tokens (before ++ (l_paren ∷ (nested ++ r_paren ∷ tail))))
      (omega arith)

-- `'a', x 1`
abbrev listed : List Token
listed =
    Token.single_quoted_string (codes "a")
    ∷ comma
    ∷ space
    ∷ word (bare "x")
    ∷ space
    ∷ number (codes "1") false
    ∷ []

abbrev column : Text
column = codes "a VarBinary(max)"

needs_preprocessing-contains_ci_example :
    needs_preprocessing column
    ≡ contains_ci column binary || contains_ci column default || has_trailing_comma column
needs_preprocessing-contains_ci_example = needs_preprocessing-contains_ci column

try_parse_binary_max-max_type_example :
    try_parse_binary_max lib (
      cursor before (max_type (bare "VARBINARY") (bare "MAX") (space ∷ []) [] (space ∷ []) ++ tail))
    ≡ (
      some (
          codes "VARBINARY"
          ++ (cow_text (space ∷ []) ++ (codes "(" ++ (binary_max_sentinel ++ codes ")")))),
      cursor (before ++ max_type (bare "VARBINARY") (bare "MAX") (space ∷ []) [] (space ∷ [])) tail,
    )
unfolding is_word_ci is_keyword is_whitespace_token
try_parse_binary_max-max_type_example =
    try_parse_binary_max-max_type lib (bare "VARBINARY") (bare "MAX") before (space ∷ []) []
      (space ∷ []) tail refl refl (refl, tt) tt (refl, tt)

abbrev gaps : Gaps
gaps = record {
  after_comma = space ∷ [];
  after_constraint = space ∷ [];
  after_name = space ∷ [];
  after_default = [];
  after_expression = space ∷ [];
  after_for = space ∷ [];
}

abbrev constraint : List Token
constraint =
    default_for true gaps (bare "CONSTRAINT") (bare "DF") (bare "DEFAULT") (bare "FOR") (bare "b")
      nested

try_parse_default_for-default_for_example :
    try_parse_default_for (cursor before (constraint ++ tail)) ≡ (
      some (record {
        name = codes "DF";
        column = codes "b";
        expression = codes "(" ++ (cow_text nested ++ codes ")");
      }),
      cursor (before ++ constraint) tail,
    )
unfolding is_keyword is_whitespace_token
try_parse_default_for-default_for_example =
    try_parse_default_for-default_for gaps (bare "CONSTRAINT") (bare "DF") (bare "DEFAULT")
      (bare "FOR") (bare "b") before tail true nested-Balanced
      ((refl, tt), (refl, tt), (refl, tt), tt, (refl, tt), (refl, tt)) refl refl refl refl refl

abbrev copied : List Token
copied =
    word (bare "SELECT") ∷ space ∷ word (bare "a") ∷ comma ∷ space ∷ number (codes "1") false ∷ []

copied-AllCopied : AllCopied copied
unfolding is_word_ci is_keyword discriminant closes_after_blanks
copied-AllCopied = (
  record { no_binary = refl; no_constraint = refl; no_trailing_comma = refl },
  (
    record { no_binary = refl; no_constraint = refl; no_trailing_comma = refl },
    (
      record { no_binary = refl; no_constraint = refl; no_trailing_comma = refl },
      (
        record { no_binary = refl; no_constraint = refl; no_trailing_comma = refl },
        (
          record { no_binary = refl; no_constraint = refl; no_trailing_comma = refl },
          (record { no_binary = refl; no_constraint = refl; no_trailing_comma = refl }, tt),
        ),
      ),
    ),
  ),
)

preprocess-AllCopied_example :
    preprocess lib (from_tokens copied) ≡ record { sql = cow_text copied; extracted_defaults = [] }
preprocess-AllCopied_example = preprocess-AllCopied lib copied copied-AllCopied

-- `CONSTRAINT +, `: the output of the round is `+` alone.
step_lost_example :
    step lib (state [] [] (cursor before (word (bare "CONSTRAINT") ∷ (space ∷ (plus ∷ tail)))))
    ≡ state
        (format_token_sql_cow plus)
        []
        (cursor (before ++ word (bare "CONSTRAINT") ∷ (space ∷ plus ∷ [])) tail)
unfolding is_word_ci is_keyword is_whitespace_token discriminant
step_lost_example =
    step_lost (bare "CONSTRAINT") (space ∷ []) plus before tail lib [] [] refl refl (refl, tt) refl
      refl refl

run-is_at_end_example :
    is_at_end
      (run lib
        (length copied)
        (record { output = []; extracted = []; base = from_tokens copied })).base
    ≡ true
run-is_at_end_example = run-is_at_end lib copied
