-- ===== src/TokenParser/Listed.antt =====
-- `TokenParser` of src/parser/token_parser_base.rs: the lists inside parentheses. Both loops start
-- behind the opening parenthesis, and end behind the closing one.
pub mod Values
use rust_sqlpackage.Prelude.{
  ℕ, zero, suc, ◌+◌, if◌then◌else◌, Option, none, some, List, [], ◌∷◌, ◌++◌, Text,
}
use rust_sqlpackage.Token.{Token, r_paren, comma, single_quoted_string, number}
use rust_sqlpackage.TokenParser.{
  TokenParser, Parse, advance, current_token, skip_whitespace, check_token, parse_identifier,
  remaining,
}

-- What a token adds to the values: a comma or an unknown token adds nothing.
abbrev pub listed_string : Token → List Text
listed_string (single_quoted_string s) = s ∷ []
listed_string (number n _) = n ∷ []
listed_string _ = []

unfoldable pub string_list_loop : ℕ → List Text → TokenParser → Option (List Text) × TokenParser
string_list_loop zero values p = (some values, p)
string_list_loop (suc f) values p =
    let q = skip_whitespace p in
    let next = λ (t : Token). string_list_loop f (values ++ listed_string t) (advance q) in
    if check_token r_paren q
    then (some values, advance q)
    else elim (current_token q) [ none ↦ (some values, q) | some t ↦ next t ]

unfoldable pub parse_string_list : Parse (List Text)
unfolding string_list_loop skip_whitespace check_token
parse_string_list p = string_list_loop (remaining p + 1) [] p

unfoldable pub identifier_list_loop : ℕ → List Text → TokenParser → Option (List Text) × TokenParser
identifier_list_loop zero values p = (some values, p)
identifier_list_loop (suc f) values p =
    let q = skip_whitespace p in
    let after_comma = identifier_list_loop f values (advance q) in
    let next = λ (s : Text). identifier_list_loop f (values ++ s ∷ []) (parse_identifier q).1 in
    if check_token r_paren q
    then (some values, advance q)
    else if check_token comma q
    then after_comma
    else elim ((parse_identifier q).0) [
      | none ↦ (some values, (parse_identifier q).1)
      | some s ↦ next s
    ]

unfoldable pub parse_identifier_list : Parse (List Text)
unfolding identifier_list_loop skip_whitespace check_token parse_identifier
parse_identifier_list p = identifier_list_loop (remaining p + 1) [] p
