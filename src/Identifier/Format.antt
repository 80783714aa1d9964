-- ===== src/Identifier/Format.antt =====
-- The functions of src/parser/identifier_utils.rs that print tokens.
use rust_sqlpackage.Prelude.{
  ℕ, ◌==◌, if◌then◌else◌, Option, none, some, [], ◌∷◌, ◌++◌, Text, codes, String,
}
use rust_sqlpackage.Token.{Word, Token, Sqlparser}

abbrev pub wrap : String → Text → String → Text
wrap before s after = codes before ++ (s ++ codes after)

unfoldable pub format_quoted : Option ℕ → Text → Text
format_quoted none s = s
format_quoted (some q) s =
    if q == b'[' then wrap "[" s "]" else if q == b'"' then wrap "\"" s "\"" else s

unfoldable pub format_word : Word → Text
unfolding format_quoted
format_word w = format_quoted w.quote_style w.value

unfoldable pub format_word_bracketed : Word → Text
format_word_bracketed w = elim w.quote_style [ none ↦ w.value | some q ↦ wrap "[" w.value "]" ]

-- `s.replace('\'', "''")`
unfoldable pub escape_quotes : Text → Text
escape_quotes [] = []
escape_quotes (c ∷ s) = if c == b'\'' then b'\'' ∷ b'\'' ∷ escape_quotes s else c ∷ escape_quotes s

module _ (lib : Sqlparser) where
  unfoldable pub format_token : Token → Text
  unfolding format_word
  format_token (Token.word w) = format_word w
  format_token (Token.number n _) = n
  format_token (Token.single_quoted_string s) = wrap "'" s "'"
  format_token (Token.national_string_literal s) = wrap "N'" s "'"
  format_token Token.l_paren = codes "("
  format_token Token.r_paren = codes ")"
  format_token Token.comma = codes ","
  format_token Token.period = codes "."
  format_token Token.semi_colon = codes ";"
  format_token Token.colon = codes ":"
  format_token Token.plus = codes "+"
  format_token Token.minus = codes "-"
  format_token Token.mul = codes "*"
  format_token Token.div = codes "/"
  format_token Token.mod_op = codes "%"
  format_token Token.eq = codes "="
  format_token Token.neq = codes "<>"
  format_token Token.lt = codes "<"
  format_token Token.gt = codes ">"
  format_token Token.lt_eq = codes "<="
  format_token Token.gt_eq = codes ">="
  format_token (Token.whitespace ws) = ws
  format_token token = lib.debug token

  unfoldable pub format_token_sql : Token → Text
  unfolding format_word escape_quotes
  format_token_sql (Token.word w) = format_word w
  format_token_sql (Token.number n _) = n
  format_token_sql (Token.single_quoted_string s) = wrap "'" (escape_quotes s) "'"
  format_token_sql (Token.national_string_literal s) = wrap "N'" (escape_quotes s) "'"
  format_token_sql (Token.double_quoted_string s) = wrap "\"" s "\""
  format_token_sql (Token.hex_string_literal s) = codes "0x" ++ s
  format_token_sql Token.l_paren = codes "("
  format_token_sql Token.r_paren = codes ")"
  format_token_sql Token.comma = codes ","
  format_token_sql Token.period = codes "."
  format_token_sql Token.semi_colon = codes ";"
  format_token_sql Token.colon = codes ":"
  format_token_sql Token.double_colon = codes "::"
  format_token_sql Token.plus = codes "+"
  format_token_sql Token.minus = codes "-"
  format_token_sql Token.mul = codes "*"
  format_token_sql Token.div = codes "/"
  format_token_sql Token.mod_op = codes "%"
  format_token_sql Token.eq = codes "="
  format_token_sql Token.neq = codes "<>"
  format_token_sql Token.lt = codes "<"
  format_token_sql Token.gt = codes ">"
  format_token_sql Token.lt_eq = codes "<="
  format_token_sql Token.gt_eq = codes ">="
  format_token_sql (Token.whitespace ws) = ws
  format_token_sql Token.at_sign = codes "@"
  format_token_sql Token.sharp = codes "#"
  format_token_sql Token.ampersand = codes "&"
  format_token_sql Token.pipe = codes "|"
  format_token_sql Token.caret = codes "^"
  format_token_sql Token.tilde = codes "~"
  format_token_sql Token.exclamation_mark = codes "!"
  format_token_sql Token.l_bracket = codes "["
  format_token_sql Token.r_bracket = codes "]"
  format_token_sql Token.l_brace = codes "{"
  format_token_sql Token.r_brace = codes "}"
  format_token_sql token = lib.display token

  unfoldable pub format_token_sql_bracketed : Token → Text
  unfolding format_word_bracketed format_token_sql
  format_token_sql_bracketed (Token.word w) = format_word_bracketed w
  format_token_sql_bracketed token = format_token_sql token

-- `Cow` says only who owns the text, which is the value here.
unfoldable pub format_token_sql_cow : Token → Text
unfolding format_word escape_quotes
format_token_sql_cow (Token.word w) = format_word w
format_token_sql_cow (Token.number n _) = n
format_token_sql_cow (Token.char c) = c ∷ []
format_token_sql_cow (Token.single_quoted_string s) = wrap "'" (escape_quotes s) "'"
format_token_sql_cow (Token.national_string_literal s) = wrap "N'" (escape_quotes s) "'"
format_token_sql_cow (Token.hex_string_literal s) = codes "0x" ++ s
format_token_sql_cow (Token.double_quoted_string s) = wrap "\"" s "\""
format_token_sql_cow (Token.single_quoted_byte_string_literal s) = wrap "b'" s "'"
format_token_sql_cow (Token.double_quoted_byte_string_literal s) = wrap "b\"" s "\""
format_token_sql_cow (Token.dollar_quoted_string s) = s
format_token_sql_cow (Token.whitespace w) = w
format_token_sql_cow Token.l_paren = codes "("
format_token_sql_cow Token.r_paren = codes ")"
format_token_sql_cow Token.l_brace = codes "{"
format_token_sql_cow Token.r_brace = codes "}"
format_token_sql_cow Token.l_bracket = codes "["
format_token_sql_cow Token.r_bracket = codes "]"
format_token_sql_cow Token.comma = codes ","
format_token_sql_cow Token.period = codes "."
format_token_sql_cow Token.colon = codes ":"
format_token_sql_cow Token.double_colon = codes "::"
format_token_sql_cow Token.semi_colon = codes ";"
format_token_sql_cow Token.eq = codes "="
format_token_sql_cow Token.neq = codes "<>"
format_token_sql_cow Token.lt = codes "<"
format_token_sql_cow Token.gt = codes ">"
format_token_sql_cow Token.lt_eq = codes "<="
format_token_sql_cow Token.gt_eq = codes ">="
format_token_sql_cow Token.spaceship = codes "<=>"
format_token_sql_cow Token.plus = codes "+"
format_token_sql_cow Token.minus = codes "-"
format_token_sql_cow Token.mul = codes "*"
format_token_sql_cow Token.div = codes "/"
format_token_sql_cow Token.mod_op = codes "%"
format_token_sql_cow Token.string_concat = codes "||"
format_token_sql_cow Token.long_arrow = codes "->>"
format_token_sql_cow Token.arrow = codes "->"
format_token_sql_cow Token.hash_arrow = codes "#>"
format_token_sql_cow Token.hash_long_arrow = codes "#>>"
format_token_sql_cow Token.at_sign = codes "@"
format_token_sql_cow Token.sharp = codes "#"
format_token_sql_cow Token.ampersand = codes "&"
format_token_sql_cow Token.pipe = codes "|"
format_token_sql_cow Token.caret = codes "^"
format_token_sql_cow Token.tilde = codes "~"
format_token_sql_cow Token.exclamation_mark = codes "!"
format_token_sql_cow _ = []
