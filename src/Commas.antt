-- ===== src/Commas.antt =====
-- split_by_top_level_comma_simple of src/parser/tsql_parser.rs: the parts of a list of definitions,
-- where the text cannot be tokenized.
pub mod Parts
use rust_sqlpackage.Prelude.{
  ℕ, zero, suc, ◌+◌, ◌-◌, ◌*◌, ◌^◌, ◌/◌, ◌%◌, ◌≤◌, ◌<◌, min, String, ◌≡◌, refl, sym, ap, ◌∙◌, ◌≢◌,
  ◌↔◌, ◌⊎◌, inl, inr, Bool, true, false, not, ◌&&◌, ◌||◌, Option, none, some, List, [], ◌∷◌, ◌++◌,
  map, append-nil, append_assoc, arith, ltb, leb, ◌==◌, if◌then◌else◌, ltb→lt, lt→ltb, leb→le,
  ==_iff, tests, Bool-cases, both_true, Option-cases, length, get_elem?, head?, is_nil, take, drop,
  take_while, drop_while, length-append, take-append-drop, length-take, length-drop, take-take,
  get_elem?_past, take_all, get_elem?-append, drop-append, take-append,
  take_while-append-drop_while, Text, codes, to_ascii_lowercase, to_ascii_uppercase,
  eq_ignore_ascii_case, is_whitespace, trim_matches, trim, ℤ, pos, negsuc, parse_i64, parse_u64,
  neg_i64,
}

-- The depth, a signed number: parentheses that close too much take it below zero.
abbrev pub deeper : ℤ → ℤ
deeper (pos n) = pos (suc n)
deeper (negsuc zero) = pos zero
deeper (negsuc (suc n)) = negsuc n

abbrev pub shallower : ℤ → ℤ
shallower (pos zero) = negsuc zero
shallower (pos (suc n)) = pos n
shallower (negsuc n) = negsuc (suc n)

abbrev pub is_zero : ℤ → Bool
is_zero (pos zero) = true
is_zero _ = false

-- The last part, unless it is blank.
abbrev pub last_part : Text → List Text
last_part current = if is_nil (trim current) then [] else trim current ∷ []

unfoldable pub split_loop : ℤ → Text → Text → List Text
split_loop depth current [] = last_part current
split_loop depth current (c ∷ cs) =
    let opened = split_loop (deeper depth) (current ++ c ∷ []) cs in
    let closed = split_loop (shallower depth) (current ++ c ∷ []) cs in
    let next = split_loop depth [] cs in
    let kept = split_loop depth (current ++ c ∷ []) cs in
    if c == b'('
    then opened
    else if c == b')'
    then closed
    else if c == b',' && is_zero depth
    then trim current ∷ next
    else kept

unfoldable pub split_by_top_level_comma_simple : Text → List Text
split_by_top_level_comma_simple s = split_loop (pos zero) [] s
