-- ===== src/TokenParser/Words.antt =====
-- `TokenParser` of src/parser/token_parser_base.rs: the steps that skip white space first.
use rust_sqlpackage.Prelude.{
  ℕ, ◌==◌, Bool, true, false, if◌then◌else◌, Option, none, some, ◌++◌, Text,
}
use rust_sqlpackage.Token.{Token, Sqlparser, l_paren, r_paren, comma, period, semi_colon}
use rust_sqlpackage.TokenParser.{
  TokenParser, Parse, pure, fail, exec, asks, expect, ◌>>=◌, ◌>>◌, advance, skip_whitespace,
  check_word_ci, check_token, parse_identifier,
}
use rust_sqlpackage.TokenParser.Literals.{parse_data_type_simple}
use rust_sqlpackage.TokenParser.Groups.{consume_parenthesized}

unfoldable pub skip_keyword : Text → Parse (Unit {0})
skip_keyword keyword = do exec skip_whitespace; expect (check_word_ci keyword)

unfoldable pub try_skip_keyword : Text → TokenParser → Bool × TokenParser
try_skip_keyword keyword p =
    let q = skip_whitespace p in if check_word_ci keyword q then (true, advance q) else (false, q)

abbrev pub symbol_token : ℕ → Option Token
symbol_token c =
    if c == b'('
    then some l_paren
    else if c == b')'
    then some r_paren
    else if c == b','
    then some comma
    else if c == b'.'
    then some period
    else if c == b';'
    then some semi_colon
    else none

abbrev pub expect_symbol : Option Token → Parse (Unit {0})
expect_symbol none = fail
expect_symbol (some t) = expect (check_token t)

unfoldable pub skip_symbol : ℕ → Parse (Unit {0})
skip_symbol symbol = do exec skip_whitespace; expect_symbol (symbol_token symbol)

unfoldable pub skip_identifier : Parse (Unit {0})
skip_identifier = do exec skip_whitespace; name ← parse_identifier; pure tt

unfoldable pub expect_identifier : Parse Text
expect_identifier = do exec skip_whitespace; parse_identifier

unfoldable pub expect_data_type : Sqlparser → Parse Text
expect_data_type lib = do
  exec skip_whitespace
  type_name ← parse_data_type_simple lib
  exec skip_whitespace
  has_params ← asks (check_token l_paren)
  let with_params = do params ← consume_parenthesized lib; pure (type_name ++ params)
  if has_params then with_params else pure type_name
