-- ===== src/Collation.antt =====
-- src/project/collation.rs: what a collation's name says of its locale and its case sensitivity.
pub mod Table
pub mod Longest
use rust_sqlpackage.Prelude.{
  ℕ, zero, suc, ◌+◌, ◌-◌, ◌*◌, ◌^◌, ◌/◌, ◌%◌, ◌≤◌, ◌<◌, min, String, ◌≡◌, refl, sym, ap, ◌∙◌, ◌≢◌,
  ◌↔◌, ◌⊎◌, inl, inr, Bool, true, false, not, ◌&&◌, ◌||◌, Option, none, some, List, [], ◌∷◌, ◌++◌,
  map, append-nil, append_assoc, arith, ltb, leb, ◌==◌, if◌then◌else◌, ltb→lt, lt→ltb, leb→le,
  ==_iff, tests, Bool-cases, Option-cases, length, get_elem?, head?, is_nil, take, drop, take_while,
  drop_while, length-append, take-append-drop, length-take, length-drop, take-take, get_elem?_past,
  take_all, get_elem?-append, drop-append, take-append, take_while-append-drop_while, Text, codes,
  to_ascii_lowercase, to_ascii_uppercase, eq_ignore_ascii_case, is_whitespace, trim_matches, trim,
  ℤ, pos, negsuc, parse_i64, parse_u64, neg_i64,
}
use mathlib.Core.List.{reverse}
use rust_sqlpackage.Token.{Sqlparser}
use rust_sqlpackage.Identifier.Qualified.{begins_with, contains}
use Table.{collation_lcid_map}

pub record CollationInfo : Type 0 where
  pub lcid : ℕ
  pub case_sensitive : Bool

-- `str::ends_with`
abbrev pub ends_with : Text → Text → Bool
ends_with pattern s = begins_with (reverse pattern) (reverse s)

unfoldable pub parse_case_sensitivity : Sqlparser → Text → Bool
unfolding contains begins_with
parse_case_sensitivity lib collation_name =
    let upper = lib.to_uppercase collation_name in
    if contains (codes "_BIN") upper
    then true
    else contains (codes "_CS_") upper || ends_with (codes "_CS") upper

-- The first entry of a table whose prefix the name has.
unfoldable pub first_match : List (Text × ℕ) → Text → Option (Text × ℕ)
first_match [] collation_name = none
first_match (e ∷ es) collation_name =
    let later = first_match es collation_name in
    if begins_with e.0 collation_name then some e else later

-- The loop over the table, and the default where no entry matches.
abbrev pub lcid_or_default : Option (Text × ℕ) → ℕ
lcid_or_default none = 1033
lcid_or_default (some e) = e.1

unfoldable pub parse_lcid : Text → ℕ
parse_lcid collation_name = lcid_or_default (first_match collation_lcid_map collation_name)

unfoldable pub parse_collation_info : Sqlparser → Text → CollationInfo
parse_collation_info lib collation_name = record {
  lcid = parse_lcid collation_name;
  case_sensitive = parse_case_sensitivity lib collation_name;
}
