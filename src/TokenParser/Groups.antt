-- ===== src/TokenParser/Groups.antt =====
-- `TokenParser` of src/parser/token_parser_base.rs: scanning to a token, and over parentheses.
pub mod Balanced
pub mod Sound
use rust_sqlpackage.Prelude.{
  ℕ, zero, suc, ◌+◌, ◌-◌, ◌==◌, Bool, true, false, not, if◌then◌else◌, Option, none, some, List, [],
  ◌∷◌, ◌++◌, take, drop, Text,
}
use rust_sqlpackage.Identifier.Format.{format_token}
use rust_sqlpackage.Token.{Token, l_paren, r_paren, Sqlparser}
use rust_sqlpackage.TokenParser.{TokenParser, Parse, is_at_end, advance, check_token, remaining}

-- The texts of the tokens, one behind the other.
unfoldable pub concat_tokens : Sqlparser → List Token → Text
unfolding format_token
concat_tokens lib [] = []
concat_tokens lib (t ∷ ts) = format_token lib t ++ concat_tokens lib ts

unfoldable pub tokens_to_string : Sqlparser → TokenParser → ℕ → ℕ → Text
unfolding concat_tokens
tokens_to_string lib p start_pos end_pos =
    concat_tokens lib (take (end_pos - start_pos) (drop start_pos p.tokens))

unfoldable pub skip_to_token_loop : ℕ → Token → TokenParser → TokenParser
skip_to_token_loop zero wanted p = p
skip_to_token_loop (suc f) wanted p =
    let rest = skip_to_token_loop f wanted (advance p) in
    if is_at_end p then p else if check_token wanted p then p else rest

unfoldable pub skip_to_token : Token → TokenParser → TokenParser
unfolding skip_to_token_loop check_token advance
skip_to_token wanted p = skip_to_token_loop (remaining p) wanted p

-- The index of the first listed wanted that the current token matches.
abbrev pub which_target : List Token → ℕ → TokenParser → Option ℕ
which_target [] i p = none
which_target (t ∷ ts) i p = if check_token t p then some i else which_target ts (i + 1) p

unfoldable pub skip_to_any_loop : ℕ → List Token → TokenParser → Option ℕ × TokenParser
skip_to_any_loop zero targets p = (none, p)
skip_to_any_loop (suc f) targets p =
    let rest = skip_to_any_loop f targets (advance p) in
    if is_at_end p
    then (none, p)
    else elim (which_target targets 0 p) [ none ↦ rest | some i ↦ (some i, p) ]

unfoldable pub skip_to_any_token : List Token → Parse ℕ
unfolding skip_to_any_loop check_token advance
skip_to_any_token targets p = skip_to_any_loop (remaining p) targets p

-- The loop that both functions on parentheses run, from behind `depth` open ones. The flag says that
-- the depth fell to zero; the position is then at that closing parenthesis. The depth is never below
-- zero in the source, since the loop starts at an opening parenthesis.
unfoldable pub close_loop : ℕ → ℕ → TokenParser → Bool × TokenParser
close_loop zero depth p = (false, p)
close_loop (suc f) depth p =
    let next = λ (d : ℕ). close_loop f d (advance p) in
    if is_at_end p
    then (false, p)
    else if check_token l_paren p
    then next (depth + 1)
    else if check_token r_paren p
    then (if depth == 1 then (true, p) else next (depth - 1))
    else next depth

unfoldable pub skip_parenthesized : TokenParser → TokenParser
unfolding close_loop check_token advance
skip_parenthesized p =
    if not (check_token l_paren p)
    then p
    else let (closed, q) = close_loop (remaining p) 0 p in if closed then advance q else q

unfoldable pub consume_parenthesized : Sqlparser → Parse Text
unfolding close_loop check_token advance tokens_to_string
consume_parenthesized lib p =
    if not (check_token l_paren p)
    then (none, p)
    else let (closed, q) = close_loop (remaining p) 0 p in
      if closed then (some (tokens_to_string lib q p.pos (q.pos + 1)), advance q) else (none, q)
