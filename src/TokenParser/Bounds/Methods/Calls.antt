-- ===== src/TokenParser/Bounds/Methods/Calls.antt =====
-- `Moves` for the calls of TokenParser/Method.
use rust_sqlpackage.Prelude.{
  ℕ, ◌+◌, inl, inr, not, Option, none, some, List, [], ◌∷◌, ◌++◌, Bool-cases, Text,
}
use rust_sqlpackage.Token.{Token, Sqlparser, l_paren, minus}
use rust_sqlpackage.TokenParser.{
  TokenParser, advance, skip_whitespace, check_token, check_keyword, check_word_ci, expect_keyword,
  expect_word_ci, expect_token, is_at_end, remaining, read_token,
}
use rust_sqlpackage.TokenParser.Method.{Method, call, calls}
use rust_sqlpackage.TokenParser.Cursor.{IsInside}
use rust_sqlpackage.TokenParser.Literals.{
  type_name_of, parse_data_type_simple, parse_sign, parse_signed_integer, integer_of, positive_of,
  parse_positive_integer,
}
use rust_sqlpackage.TokenParser.Groups.{
  skip_to_token, skip_to_any_token, close_loop, skip_parenthesized, consume_parenthesized,
}
use rust_sqlpackage.TokenParser.Words.{
  skip_keyword, try_skip_keyword, symbol_token, expect_symbol, skip_symbol, skip_identifier,
  expect_identifier, expect_data_type,
}
use rust_sqlpackage.TokenParser.Listed.{parse_string_list, parse_identifier_list}
use rust_sqlpackage.TokenParser.Bounds.{
  Moves, Moves-refl, Moves-trans, AllMove, AllMove-bind, AllMove-if, advance-Moves,
  advance_by-Moves, skip_whitespace-Moves, read_token-AllMove, expect-AllMove, asks-AllMove,
  pure-AllMove, parse_identifier-AllMove, skip_whitespace-AllMove,
  parse_schema_qualified_name-AllMove,
}
use rust_sqlpackage.TokenParser.Bounds.Methods.{
  Moves-if, skip_to_token_loop-Moves, skip_to_any_loop-Moves, close_loop-Moves,
  string_list_loop-Moves, identifier_list_loop-Moves,
}

skip_to_token-Moves : (t : Token) (p : TokenParser) → IsInside p → Moves p (skip_to_token t p)
unfolding skip_to_token
skip_to_token-Moves t p = skip_to_token_loop-Moves (remaining p) t p

skip_to_any_token-AllMove : (ts : List Token) → AllMove (skip_to_any_token ts)
unfolding skip_to_any_token
skip_to_any_token-AllMove ts = record { apply = λ p. skip_to_any_loop-Moves (remaining p) ts p }

skip_parenthesized-Moves : (p : TokenParser) → IsInside p → Moves p (skip_parenthesized p)
unfolding skip_parenthesized
skip_parenthesized-Moves p h =
    let r = close_loop (remaining p) 0 p in
    let m = close_loop-Moves (remaining p) 0 p h in
    Moves-if (not (check_token l_paren p)) p p _ (Moves-refl p h)
      (Moves-if r.0 p (advance r.1) r.1 (Moves-trans m (advance-Moves r.1 m.inside)) m)

consume_parenthesized-AllMove : (lib : Sqlparser) → AllMove (consume_parenthesized lib)
unfolding consume_parenthesized
consume_parenthesized-AllMove lib = record {
  apply = λ p h.
      let r = close_loop (remaining p) 0 p in
      let m = close_loop-Moves (remaining p) 0 p h in
      elim (Bool-cases (not (check_token l_paren p))) [
        | inl e ↦ rw e (Moves-refl p h)
        | inr e ↦ rw e (elim (Bool-cases r.0) [
          | inl c ↦ rw c (Moves-trans m (advance-Moves r.1 m.inside))
          | inr c ↦ rw c m
        ])
      ];
}

pub parse_data_type_simple-AllMove : (lib : Sqlparser) → AllMove (parse_data_type_simple lib)
unfolding parse_data_type_simple
parse_data_type_simple-AllMove lib = read_token-AllMove (type_name_of lib)

parse_sign-AllMove : AllMove parse_sign
parse_sign-AllMove = record {
  apply = λ p h.
      let m = advance-Moves p h in
      elim (Bool-cases (check_token minus p)) [
        | inl e ↦ rw e (Moves-trans m (skip_whitespace-Moves (advance p) m.inside))
        | inr e ↦ rw e (Moves-refl p h)
      ];
}

pub parse_signed_integer-AllMove : AllMove parse_signed_integer
unfolding parse_signed_integer
parse_signed_integer-AllMove = record {
  apply = λ p h.
      let both =
        AllMove-bind parse_sign (λ negative. read_token (integer_of negative)) parse_sign-AllMove
          (λ negative. read_token-AllMove (integer_of negative)) in
      elim (Bool-cases (is_at_end p)) [
        | inl e ↦ rw e (Moves-refl p h)
        | inr e ↦ rw e (both.apply p h)
      ];
}

parse_positive_integer-AllMove : AllMove parse_positive_integer
unfolding parse_positive_integer
parse_positive_integer-AllMove = read_token-AllMove positive_of

skip_keyword-AllMove : (s : Text) → AllMove (skip_keyword s)
unfolding skip_keyword
skip_keyword-AllMove s =
    AllMove-bind _ _ skip_whitespace-AllMove λ _. expect-AllMove (check_word_ci s)

try_skip_keyword-Moves :
    (s : Text) (p : TokenParser) → IsInside p → Moves p (try_skip_keyword s p).1
unfolding try_skip_keyword
try_skip_keyword-Moves s p h =
    let w = skip_whitespace-Moves p h in
    let q = skip_whitespace p in
    elim (Bool-cases (check_word_ci s q)) [
      | inl e ↦ rw e (Moves-trans w (advance-Moves q w.inside))
      | inr e ↦ rw e w
    ]

expect_symbol-AllMove : (o : Option Token) → AllMove (expect_symbol o)
expect_symbol-AllMove none = record { apply = Moves-refl }
expect_symbol-AllMove (some t) = expect-AllMove (check_token t)

skip_symbol-AllMove : (c : ℕ) → AllMove (skip_symbol c)
unfolding skip_symbol
skip_symbol-AllMove c =
    AllMove-bind _ _ skip_whitespace-AllMove λ _. expect_symbol-AllMove (symbol_token c)

expect_identifier-AllMove : AllMove expect_identifier
unfolding expect_identifier
expect_identifier-AllMove = AllMove-bind _ _ skip_whitespace-AllMove λ _. parse_identifier-AllMove

skip_identifier-AllMove : AllMove skip_identifier
unfolding skip_identifier
skip_identifier-AllMove =
    AllMove-bind _ _ skip_whitespace-AllMove
      λ _. AllMove-bind _ _ parse_identifier-AllMove λ _. pure-AllMove tt

expect_data_type-AllMove : (lib : Sqlparser) → AllMove (expect_data_type lib)
unfolding expect_data_type
expect_data_type-AllMove lib = AllMove-bind _ _ skip_whitespace-AllMove λ _.
    AllMove-bind _ _ (parse_data_type_simple-AllMove lib) λ name.
      AllMove-bind _ _ skip_whitespace-AllMove λ _.
        AllMove-bind _ _ (asks-AllMove (check_token l_paren)) λ has.
          AllMove-if has _ _
            (AllMove-bind _ _ (consume_parenthesized-AllMove lib)
              λ params. pure-AllMove (name ++ params))
            (pure-AllMove name)

parse_string_list-AllMove : AllMove parse_string_list
unfolding parse_string_list
parse_string_list-AllMove = record { apply = λ p. string_list_loop-Moves (remaining p + 1) [] p }

parse_identifier_list-AllMove : AllMove parse_identifier_list
unfolding parse_identifier_list
parse_identifier_list-AllMove = record {
  apply = λ p. identifier_list_loop-Moves (remaining p + 1) [] p;
}

call-Moves : (lib : Sqlparser) (m : Method) (p : TokenParser) → IsInside p → Moves p (call lib m p)
unfolding call expect_keyword expect_word_ci expect_token
call-Moves lib Method.advance p h = advance-Moves p h
call-Moves lib (Method.advance_by n) p h = advance_by-Moves n p h
call-Moves lib Method.skip_whitespace p h = skip_whitespace-Moves p h
call-Moves lib (Method.expect_keyword k) p h = (expect-AllMove (check_keyword k)).apply p h
call-Moves lib (Method.expect_word_ci s) p h = (expect-AllMove (check_word_ci s)).apply p h
call-Moves lib (Method.expect_token t) p h = (expect-AllMove (check_token t)).apply p h
call-Moves lib Method.parse_identifier p h = parse_identifier-AllMove.apply p h
call-Moves lib Method.parse_schema_qualified_name p h =
    parse_schema_qualified_name-AllMove.apply p h
call-Moves lib Method.parse_data_type_simple p h = (parse_data_type_simple-AllMove lib).apply p h
call-Moves lib Method.parse_signed_integer p h = parse_signed_integer-AllMove.apply p h
call-Moves lib Method.parse_positive_integer p h = parse_positive_integer-AllMove.apply p h
call-Moves lib (Method.skip_to_token t) p h = skip_to_token-Moves t p h
call-Moves lib (Method.skip_to_any_token ts) p h = (skip_to_any_token-AllMove ts).apply p h
call-Moves lib Method.skip_parenthesized p h = skip_parenthesized-Moves p h
call-Moves lib Method.consume_parenthesized p h = (consume_parenthesized-AllMove lib).apply p h
call-Moves lib (Method.skip_keyword s) p h = (skip_keyword-AllMove s).apply p h
call-Moves lib (Method.try_skip_keyword s) p h = try_skip_keyword-Moves s p h
call-Moves lib (Method.skip_symbol c) p h = (skip_symbol-AllMove c).apply p h
call-Moves lib Method.skip_identifier p h = skip_identifier-AllMove.apply p h
call-Moves lib Method.expect_identifier p h = expect_identifier-AllMove.apply p h
call-Moves lib Method.expect_data_type p h = (expect_data_type-AllMove lib).apply p h
call-Moves lib Method.parse_string_list p h = parse_string_list-AllMove.apply p h
call-Moves lib Method.parse_identifier_list p h = parse_identifier_list-AllMove.apply p h

-- From a position inside the tokens, or at their end, any sequence of method calls leaves the tokens
-- as they are, never goes back, and ends inside the tokens or at their end.
pub calls-Moves :
    (lib : Sqlparser) (ms : List Method) (p : TokenParser) → IsInside p → Moves p (calls lib ms p)
unfolding calls
calls-Moves lib [] p h = Moves-refl p h
calls-Moves lib (m ∷ ms) p h =
    let one = call-Moves lib m p h in Moves-trans one (calls-Moves lib ms (call lib m p) one.inside)
