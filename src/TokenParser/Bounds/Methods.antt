-- ===== src/TokenParser/Bounds/Methods.antt =====
-- `Moves` for the loops of the token parser.
pub mod Calls
use rust_sqlpackage.Prelude.{
  ℕ, zero, suc, ◌+◌, ◌-◌, ◌*◌, ◌^◌, ◌≤◌, ◌<◌, min, String, ◌≡◌, refl, sym, ap, ◌∙◌, ◌≢◌, ◌↔◌, ◌⊎◌,
  inl, inr, Bool, true, false, not, ◌&&◌, ◌||◌, Option, none, some, List, [], ◌∷◌, ◌++◌, map,
  append-nil, append_assoc, arith, ltb, leb, ◌==◌, if◌then◌else◌, ltb→lt, lt→ltb, leb→le, ==_iff,
  tests, Bool-cases, Option-cases, length, get_elem?, head?, take, drop, take_while, drop_while,
  length-append, take-append-drop, length-take, length-drop, get_elem?-append, drop-append,
  take-append, take_while-append-drop_while, Text, codes, to_ascii_lowercase, to_ascii_uppercase,
  eq_ignore_ascii_case, is_whitespace, trim_matches, trim, ℤ, pos, negsuc, parse_i64, parse_u64,
  neg_i64,
}
use rust_sqlpackage.Token.{Token, Sqlparser, Keyword, l_paren, r_paren, comma, minus}
use rust_sqlpackage.TokenParser.{
  TokenParser, Parse, pure, fail, asks, exec, require, expect, ◌>>=◌, ◌>>◌, advance, advance_by,
  skip_whitespace, parse_identifier, parse_schema_qualified_name, check_token, check_keyword,
  check_word_ci, expect_keyword, expect_word_ci, expect_token, is_at_end, remaining, current_token,
}
use rust_sqlpackage.TokenParser.Cursor.{IsInside}
use rust_sqlpackage.TokenParser.Literals.{
  parse_data_type_simple, parse_sign, parse_signed_integer, integer_of, parse_positive_integer,
}
use rust_sqlpackage.TokenParser.Groups.{
  skip_to_token_loop, skip_to_token, which_target, skip_to_any_loop, skip_to_any_token, close_loop,
  skip_parenthesized, consume_parenthesized, tokens_to_string,
}
use rust_sqlpackage.TokenParser.Words.{
  skip_keyword, try_skip_keyword, symbol_token, expect_symbol, skip_symbol, skip_identifier,
  expect_identifier, expect_data_type,
}
use rust_sqlpackage.TokenParser.Listed.{
  listed_string, string_list_loop, parse_string_list, identifier_list_loop, parse_identifier_list,
}
use rust_sqlpackage.TokenParser.Bounds.{
  Moves, Moves-refl, Moves-trans, AllMove, AllMove-bind, AllMove-if, advance-Moves,
  advance_by-Moves, skip_whitespace-Moves, read_token-AllMove, expect-AllMove, asks-AllMove,
  pure-AllMove, parse_identifier-AllMove, advance-AllMove, skip_whitespace-AllMove,
  parse_schema_qualified_name-AllMove,
}

pub Moves-if :
    (b : Bool) (p q r : TokenParser) → Moves p q → Moves p r → Moves p (if b then q else r)
Moves-if true p q r m n = m
Moves-if false p q r m n = n

pub skip_to_token_loop-Moves :
    (f : ℕ) (t : Token) (p : TokenParser) → IsInside p → Moves p (skip_to_token_loop f t p)
unfolding skip_to_token_loop
skip_to_token_loop-Moves zero t p h = Moves-refl p h
skip_to_token_loop-Moves (suc f) t p h =
    let m = advance-Moves p h in
    let onwards = Moves-trans m (skip_to_token_loop-Moves f t (advance p) m.inside) in
    Moves-if (is_at_end p) p p _ (Moves-refl p h)
      (Moves-if (check_token t p) p p _ (Moves-refl p h) onwards)

pub skip_to_any_loop-Moves :
    (f : ℕ) (ts : List Token) (p : TokenParser) → IsInside p → Moves p (skip_to_any_loop f ts p).1
unfolding skip_to_any_loop
skip_to_any_loop-Moves zero ts p h = Moves-refl p h
skip_to_any_loop-Moves (suc f) ts p h =
    let m = advance-Moves p h in
    let onwards = Moves-trans m (skip_to_any_loop-Moves f ts (advance p) m.inside) in
    elim (Bool-cases (is_at_end p)) [
      | inl e ↦ rw e (Moves-refl p h)
      | inr e ↦ rw e (elim (Option-cases (which_target ts 0 p)) [
        | inl w ↦ rw (w, skip_to_any_loop) onwards
        | inr (i, w) ↦ rw (w, skip_to_any_loop) (Moves-refl p h)
      ])
    ]

pub close_loop-Moves : (f d : ℕ) (p : TokenParser) → IsInside p → Moves p (close_loop f d p).1
unfolding close_loop
close_loop-Moves zero d p h = Moves-refl p h
close_loop-Moves (suc f) d p h =
    let m = advance-Moves p h in
    let up = Moves-trans m (close_loop-Moves f (d + 1) (advance p) m.inside) in
    let down = Moves-trans m (close_loop-Moves f (d - 1) (advance p) m.inside) in
    let level = Moves-trans m (close_loop-Moves f d (advance p) m.inside) in
    elim (Bool-cases (is_at_end p)) [
      | inl e ↦ rw e (Moves-refl p h)
      | inr e ↦ rw e (elim (Bool-cases (check_token l_paren p)) [
        | inl o ↦ rw o up
        | inr o ↦ rw o (elim (Bool-cases (check_token r_paren p)) [
          | inr c ↦ rw c level
          | inl c ↦ rw c (elim (Bool-cases (d == 1)) [
            | inl one ↦ rw one (Moves-refl p h)
            | inr more ↦ rw more down
          ])
        ])
      ])
    ]

pub string_list_loop-Moves :
    (f : ℕ) (v : List Text) (p : TokenParser) → IsInside p → Moves p (string_list_loop f v p).1
unfolding string_list_loop
string_list_loop-Moves zero v p h = Moves-refl p h
string_list_loop-Moves (suc f) v p h =
    let w = skip_whitespace-Moves p h in
    let q = skip_whitespace p in
    let m = Moves-trans w (advance-Moves q w.inside) in
    elim (Bool-cases (check_token r_paren q)) [
      | inl e ↦ rw e m
      | inr e ↦ rw e (elim (Option-cases (current_token q)) [
        | inl n ↦ rw (n, string_list_loop) w
        | inr (t, n) ↦
            rw (n, string_list_loop)
              (Moves-trans m (string_list_loop-Moves f (v ++ listed_string t) (advance q) m.inside))
      ])
    ]

pub identifier_list_loop-Moves :
    (f : ℕ) (v : List Text) (p : TokenParser) → IsInside p → Moves p (identifier_list_loop f v p).1
unfolding identifier_list_loop
identifier_list_loop-Moves zero v p h = Moves-refl p h
identifier_list_loop-Moves (suc f) v p h =
    let w = skip_whitespace-Moves p h in
    let q = skip_whitespace p in
    let m = Moves-trans w (advance-Moves q w.inside) in
    let n = Moves-trans w (parse_identifier-AllMove.apply q w.inside) in
    elim (Bool-cases (check_token r_paren q)) [
      | inl e ↦ rw e m
      | inr e ↦ rw e (elim (Bool-cases (check_token comma q)) [
        | inl c ↦ rw c (Moves-trans m (identifier_list_loop-Moves f v (advance q) m.inside))
        | inr c ↦ rw c (elim (Option-cases ((parse_identifier q).0)) [
          | inl x ↦ rw (x, identifier_list_loop) n
          | inr (s, x) ↦
              rw (x, identifier_list_loop)
                (Moves-trans n
                  (identifier_list_loop-Moves f (v ++ s ∷ []) (parse_identifier q).1 n.inside))
        ])
      ])
    ]
