-- ===== src/TokenParser/Method.antt =====
-- Every method of `TokenParser` in src/parser/token_parser_base.rs that takes `&mut self`, except
-- `set_pos`, as a call with its arguments, and what a sequence of calls does to the parser.
use rust_sqlpackage.Prelude.{ℕ, Text, List, [], ◌∷◌}
use rust_sqlpackage.Token.{Token, Sqlparser, Keyword}
use rust_sqlpackage.TokenParser
use rust_sqlpackage.TokenParser.Literals
use rust_sqlpackage.TokenParser.Groups
use rust_sqlpackage.TokenParser.Words
use rust_sqlpackage.TokenParser.Listed

pub data Method : Type 0 where
  advance skip_whitespace parse_identifier parse_schema_qualified_name : Method
  parse_data_type_simple parse_signed_integer parse_positive_integer : Method
  skip_parenthesized consume_parenthesized skip_identifier expect_identifier : Method
  expect_data_type parse_string_list parse_identifier_list : Method
  advance_by skip_symbol : ℕ → Method
  expect_keyword : Keyword → Method
  expect_word_ci skip_keyword try_skip_keyword : Text → Method
  expect_token skip_to_token : Token → Method
  skip_to_any_token : List Token → Method

unfoldable pub call : Sqlparser → Method → TokenParser.TokenParser → TokenParser.TokenParser
call lib advance p = TokenParser.advance p
call lib (advance_by n) p = TokenParser.advance_by n p
call lib skip_whitespace p = TokenParser.skip_whitespace p
call lib (expect_keyword k) p = (TokenParser.expect_keyword k p).1
call lib (expect_word_ci s) p = (TokenParser.expect_word_ci s p).1
call lib (expect_token t) p = (TokenParser.expect_token t p).1
call lib parse_identifier p = (TokenParser.parse_identifier p).1
call lib parse_schema_qualified_name p = (TokenParser.parse_schema_qualified_name p).1
call lib parse_data_type_simple p = (Literals.parse_data_type_simple lib p).1
call lib parse_signed_integer p = (Literals.parse_signed_integer p).1
call lib parse_positive_integer p = (Literals.parse_positive_integer p).1
call lib (skip_to_token t) p = Groups.skip_to_token t p
call lib (skip_to_any_token ts) p = (Groups.skip_to_any_token ts p).1
call lib skip_parenthesized p = Groups.skip_parenthesized p
call lib consume_parenthesized p = (Groups.consume_parenthesized lib p).1
call lib (skip_keyword s) p = (Words.skip_keyword s p).1
call lib (try_skip_keyword s) p = (Words.try_skip_keyword s p).1
call lib (skip_symbol c) p = (Words.skip_symbol c p).1
call lib skip_identifier p = (Words.skip_identifier p).1
call lib expect_identifier p = (Words.expect_identifier p).1
call lib expect_data_type p = (Words.expect_data_type lib p).1
call lib parse_string_list p = (Listed.parse_string_list p).1
call lib parse_identifier_list p = (Listed.parse_identifier_list p).1

-- One call after the other.
unfoldable pub calls : Sqlparser → List Method → TokenParser.TokenParser → TokenParser.TokenParser
calls lib [] p = p
calls lib (m ∷ ms) p = calls lib ms (call lib m p)
