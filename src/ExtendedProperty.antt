-- ===== src/ExtendedProperty.antt =====
-- `ExtendedPropertyTokenParser` of src/parser/extended_property_parser.rs: calls of
-- sp_addextendedproperty.
pub mod Parameters
pub mod Calls
use rust_sqlpackage.Prelude.{
  ℕ, zero, suc, ◌+◌, ◌-◌, ◌*◌, ◌^◌, ◌/◌, ◌%◌, ◌≤◌, ◌<◌, min, String, ◌≡◌, refl, sym, ap, ◌∙◌, ◌≢◌,
  ◌↔◌, ◌⊎◌, inl, inr, Bool, true, false, not, ◌&&◌, ◌||◌, Option, none, some, List, [], ◌∷◌, ◌++◌,
  map, append-nil, append_assoc, arith, ltb, leb, ◌==◌, if◌then◌else◌, ltb→lt, lt→ltb, leb→le,
  ==_iff, tests, Bool-cases, both_true, Option-cases, length, get_elem?, head?, is_nil, take, drop,
  take_while, drop_while, length-append, take-append-drop, length-take, length-drop, take-take,
  get_elem?_past, take_all, get_elem?-append, drop-append, take-append,
  take_while-append-drop_while, Text, codes, to_ascii_lowercase, to_ascii_uppercase,
  eq_ignore_ascii_case, is_whitespace, trim_matches, trim, ℤ, pos, negsuc, parse_i64, parse_u64,
  neg_i64,
}
use rust_sqlpackage.Token.{
  Token, word, comma, period, eq, semi_colon, single_quoted_string, national_string_literal,
  Sqlparser,
}
use rust_sqlpackage.TokenParser.{
  TokenParser, Parse, pure, exec, asks, require, ◌>>=◌, ◌>>◌, new, from_tokens, advance,
  skip_whitespace, check_keyword, check_word_ci, check_token, is_at_end, current_token, remaining,
}
use rust_sqlpackage.Columns.Maps.{text_eq}

pub record TokenParsedExtendedProperty : Type 0 where
  pub property_name : Text
  pub property_value : Text
  pub level0name : Text
  pub level1type : Option Text
  pub level1name : Option Text
  pub level2type : Option Text
  pub level2name : Option Text

-- The name behind an `@`, in upper case.
unfoldable pub param_name_of : Sqlparser → Token → Option Text
param_name_of lib (word w) = elim w.value [
  | [] ↦ none
  | c ∷ name ↦ if c == b'@' then some (lib.to_uppercase name) else none
]
param_name_of lib _ = none

abbrev pub take_name : Option Text → TokenParser → Option Text × TokenParser
take_name none p = (none, p)
take_name (some name) p = (some name, advance p)

unfoldable pub try_parse_param_name : Sqlparser → TokenParser → Option Text × TokenParser
try_parse_param_name lib p = elim (current_token p) [
  | none ↦ (none, p)
  | some t ↦ take_name (param_name_of lib t) p
]

-- The value of a token that is one: NULL, written as a word, is no text.
unfoldable pub value_at : Token → TokenParser → Option Text × TokenParser
value_at (single_quoted_string s) p = (some s, advance p)
value_at (national_string_literal s) p = (some s, advance p)
value_at (word w) p =
    (if eq_ignore_ascii_case w.value (codes "NULL") then none else some w.value, advance p)
value_at _ p = (none, p)

-- What follows the white space in front of a value.
unfoldable pub value_from : TokenParser → Option Text × TokenParser
value_from p =
    if is_at_end p
    then (none, p)
    else if check_keyword "NULL" p
    then (none, advance p)
    else elim (current_token p) [ none ↦ (none, p) | some t ↦ value_at t p ]

unfoldable pub parse_parameter_value : TokenParser → Option Text × TokenParser
parse_parameter_value p = value_from (skip_whitespace p)

abbrev pub or_empty : Option Text → Text
or_empty none = []
or_empty (some s) = s

abbrev pub or_keep : Text → Option Text → Text
or_keep s none = s
or_keep s (some t) = t

-- The match on a parameter's name.
unfoldable pub store :
    Text → Option Text → TokenParsedExtendedProperty → TokenParsedExtendedProperty
store name value r =
    if text_eq name (codes "NAME")
    then record r { property_name = or_empty value }
    else if text_eq name (codes "VALUE")
    then record r { property_value = or_empty value }
    else if text_eq name (codes "LEVEL0NAME")
    then record r { level0name = or_keep r.level0name value }
    else if text_eq name (codes "LEVEL0TYPE")
    then r
    else if text_eq name (codes "LEVEL1TYPE")
    then record r { level1type = value }
    else if text_eq name (codes "LEVEL1NAME")
    then record r { level1name = value }
    else if text_eq name (codes "LEVEL2TYPE")
    then record r { level2type = value }
    else if text_eq name (codes "LEVEL2NAME")
    then record r { level2name = value }
    else r

abbrev pub Parsing : Type 0
Parsing = TokenParsedExtendedProperty × TokenParser

-- Behind a parameter's name and white space: its value, if an equals sign stands there.
unfoldable pub assigned : Text → TokenParsedExtendedProperty → TokenParser → Parsing
assigned name r p =
    let v = parse_parameter_value (skip_whitespace (advance p)) in
    if check_token eq p then (store name v.0 r, v.1) else (r, p)

-- A round of the loop at a token that is no semicolon. A comma and an unknown token are passed over.
unfoldable pub named_parameter : TokenParsedExtendedProperty → Option Text × TokenParser → Parsing
named_parameter r (none, p) = (r, advance p)
named_parameter r (some name, p) = assigned name r (skip_whitespace p)

unfoldable pub parameters_loop : Sqlparser → ℕ → TokenParsedExtendedProperty → TokenParser → Parsing
parameters_loop lib zero r p = (r, p)
parameters_loop lib (suc f) r p =
    let q = skip_whitespace p in
    let s = named_parameter r (try_parse_param_name lib q) in
    let rest = parameters_loop lib f s.0 s.1 in
    if is_at_end p then (r, p) else if check_token semi_colon q then (r, q) else rest

unfoldable pub parse_parameters : Sqlparser → TokenParsedExtendedProperty → TokenParser → Parsing
parse_parameters lib r p = parameters_loop lib (remaining p) r p

abbrev pub defaults : TokenParsedExtendedProperty
defaults = record {
  property_name = [];
  property_value = [];
  level0name = codes "dbo";
  level1type = none;
  level1name = none;
  level2type = none;
  level2name = none;
}

-- EXEC or EXECUTE, if present.
unfoldable pub skip_exec_keyword : Parse (Unit {0})
skip_exec_keyword = do
  found ← asks (λ p. check_keyword "EXEC" p || check_keyword "EXECUTE" p)
  let skip = do exec advance; exec skip_whitespace
  if found then skip else pure tt

-- The schema `sys` or `dbo` and a dot, if present.
unfoldable pub skip_schema : Parse (Unit {0})
skip_schema = do
  found ← asks (λ p. check_word_ci (codes "sys") p || check_word_ci (codes "dbo") p)
  let skip = do
    exec advance
    exec skip_whitespace
    dot ← asks (check_token period)
    let skip_dot = do exec advance; exec skip_whitespace
    if dot then skip_dot else pure tt
  if found then skip else pure tt

unfoldable pub parse_extended_property : Sqlparser → Parse TokenParsedExtendedProperty
parse_extended_property lib = do
  exec skip_whitespace
  skip_exec_keyword
  skip_schema
  require (check_word_ci (codes "sp_addextendedproperty"))
  exec advance
  exec skip_whitespace
  result ← λ p. (let r = parse_parameters lib defaults p in (some r.0, r.1))
  require (λ p. not (is_nil result.property_name))
  pure result

unfoldable pub parse_extended_property_tokens :
    Sqlparser → Text → Option TokenParsedExtendedProperty
parse_extended_property_tokens lib sql = elim (new lib sql) [
  | none ↦ none
  | some parser ↦ (parse_extended_property lib parser).0
]

unfoldable pub parse_extended_property_tokens_with_tokens :
    Sqlparser → List Token → Option TokenParsedExtendedProperty
parse_extended_property_tokens_with_tokens lib tokens =
    (parse_extended_property lib (from_tokens tokens)).0
