-- ===== src/Preprocess/Steps.antt =====
-- The attempts of `PreprocessTokenParser` in src/parser/preprocess_parser.rs at one position. Each
-- returns what it recognised and leaves the parser where the source leaves it: at its start where
-- the source calls `set_pos(start_pos)`, and where a `?` returned early, at the place reached.
use rust_sqlpackage.Prelude.{
  ℕ, zero, suc, ◌+◌, ◌-◌, Bool, true, false, ◌||◌, not, ltb, ◌==◌, if◌then◌else◌, Option, none,
  some, List, [], ◌∷◌, ◌++◌, drop, is_nil, Text, codes, ◌&&◌,
}
use rust_sqlpackage.Identifier.Format.{format_token_sql_cow}
use rust_sqlpackage.Token.{
  Token, word, single_quoted_string, national_string_literal, hex_string_literal,
  double_quoted_string, single_quoted_byte_string_literal, double_quoted_byte_string_literal,
  whitespace, is_whitespace_token, l_paren, r_paren, comma, Sqlparser,
}
use rust_sqlpackage.TokenParser.{
  TokenParser, Parse, pure, exec, ◌>>=◌, ◌>>◌, is_at_end, set_pos, current_token, advance,
  skip_whitespace, check_keyword, check_word_ci, check_token, parse_identifier, remaining,
  current_is,
}

pub record ExtractedDefaultConstraint : Type 0 where
  pub name : Text
  pub column : Text
  pub expression : Text

-- The decimal digits of `BINARY_MAX_SENTINEL`, 2147483647.
abbrev pub binary_max_sentinel : Text
binary_max_sentinel = codes "2147483647"

unfoldable pub is_string_token : Token → Bool
is_string_token (single_quoted_string s) = true
is_string_token (national_string_literal s) = true
is_string_token (hex_string_literal s) = true
is_string_token (double_quoted_string s) = true
is_string_token (single_quoted_byte_string_literal s) = true
is_string_token (double_quoted_byte_string_literal s) = true
is_string_token _ = false

unfoldable pub is_string_literal : TokenParser → Bool
is_string_literal p = current_is is_string_token p

abbrev pub word_value_of : Option Token → Option Text
word_value_of (some (word w)) = some w.value
word_value_of _ = none

unfoldable pub get_word_value : TokenParser → Option Text
get_word_value p = word_value_of (current_token p)

-- `if !test { set_pos(start_pos); return None; }`, and `if test { return None; }`
abbrev pub require_or_reset : ℕ → (TokenParser → Bool) → Parse (Unit {0})
require_or_reset start test p = if test p then (some tt, p) else (none, set_pos start p)

abbrev pub refuse : (TokenParser → Bool) → Parse (Unit {0})
refuse test p = (if test p then none else some tt, p)

abbrev pub of_option {ℓ} : {A : Type ℓ} → (TokenParser → Option A) → Parse A
of_option f p = (f p, p)

-- The white space at the position, as text.
unfoldable pub collect_whitespace_loop : ℕ → Text → TokenParser → Text × TokenParser
collect_whitespace_loop zero acc p = (acc, p)
collect_whitespace_loop (suc f) acc p =
    let next =
      λ (t : Token). collect_whitespace_loop f (acc ++ format_token_sql_cow t) (advance p) in
    elim (current_token p) [
      | none ↦ (acc, p)
      | some t ↦ if is_whitespace_token t then next t else (acc, p)
    ]

unfoldable pub collect_whitespace : Parse Text
collect_whitespace p = let r = collect_whitespace_loop (remaining p) [] p in (some r.0, r.1)

-- `VARBINARY ( MAX )` to the same with a number
unfoldable pub binary_max_from : Sqlparser → ℕ → Parse Text
binary_max_from lib start_pos = do
  refuse is_string_literal
  refuse (λ p. not (check_word_ci (codes "BINARY") p) && not (check_word_ci (codes "VARBINARY") p))
  type_name ← of_option get_word_value
  exec advance
  ws ← collect_whitespace
  require_or_reset start_pos (check_token l_paren)
  exec advance
  exec skip_whitespace
  require_or_reset start_pos (check_keyword "MAX")
  exec advance
  exec skip_whitespace
  require_or_reset start_pos (check_token r_paren)
  exec advance
  pure (lib.to_uppercase type_name ++ (ws ++ (codes "(" ++ (binary_max_sentinel ++ codes ")"))))

unfoldable pub try_parse_binary_max : Sqlparser → Parse Text
try_parse_binary_max lib p = binary_max_from lib p.pos p

-- What one token adds inside an expression, and to the depth.
abbrev pub depth_step : ℕ → Token → ℕ
depth_step d l_paren = d + 1
depth_step d r_paren = d - 1
depth_step d _ = d

abbrev pub expression_text : ℕ → Token → Text
expression_text d r_paren = if ltb 0 (d - 1) then format_token_sql_cow r_paren else []
expression_text d t = format_token_sql_cow t

unfoldable pub expression_loop : ℕ → ℕ → Text → TokenParser → ℕ × Text × TokenParser
expression_loop zero depth acc p = (depth, acc, p)
expression_loop (suc f) depth acc p =
    let next = λ (t : Token).
      expression_loop f (depth_step depth t) (acc ++ expression_text depth t) (advance p) in
    if is_at_end p || depth == 0
    then (depth, acc, p)
    else elim (current_token p) [ none ↦ (depth, acc, advance p) | some t ↦ next t ]

unfoldable pub parse_parenthesized_expression : Parse Text
parse_parenthesized_expression p =
    if not (check_token l_paren p)
    then (none, p)
    else let q = advance p in
      let r = expression_loop (remaining q) 1 [] q in (if r.0 == 0 then some r.1 else none, r.2)

-- `, CONSTRAINT name DEFAULT (expression) FOR column`
abbrev pub skip_leading_comma : TokenParser → TokenParser
skip_leading_comma p = if check_token comma p then skip_whitespace (advance p) else p

unfoldable pub default_for_from : ℕ → Parse ExtractedDefaultConstraint
default_for_from start_pos = do
  refuse is_string_literal
  exec skip_leading_comma
  require_or_reset start_pos (check_keyword "CONSTRAINT")
  exec advance
  exec skip_whitespace
  constraint_name ← parse_identifier
  require_or_reset start_pos (λ p. not (is_nil constraint_name))
  exec skip_whitespace
  require_or_reset start_pos (check_keyword "DEFAULT")
  exec advance
  exec skip_whitespace
  require_or_reset start_pos (check_token l_paren)
  expression ← parse_parenthesized_expression
  exec skip_whitespace
  require_or_reset start_pos (check_keyword "FOR")
  exec advance
  exec skip_whitespace
  column_name ← parse_identifier
  require_or_reset start_pos (λ p. not (is_nil column_name))
  pure (record {
    name = constraint_name;
    column = column_name;
    expression = codes "(" ++ (expression ++ codes ")");
  })

unfoldable pub try_parse_default_for : Parse ExtractedDefaultConstraint
try_parse_default_for p = default_for_from p.pos p

-- Behind the comma: white space, then a closing parenthesis.
unfoldable pub closes_after_blanks : List Token → Bool
closes_after_blanks [] = false
closes_after_blanks (whitespace s ∷ ts) = closes_after_blanks ts
closes_after_blanks (r_paren ∷ ts) = true
closes_after_blanks _ = false

unfoldable pub is_trailing_comma : TokenParser → Bool
is_trailing_comma p =
    if not (check_token comma p) then false else closes_after_blanks (drop (p.pos + 1) p.tokens)
