-- ===== src/TokenParser/Bounds.antt =====
-- The relation `Moves` between a parser and the one that a method returns, with rules for the steps
-- that the methods are made of. `Groups`, `Words` and `Listed` are in Bounds/Methods.
pub mod Methods
use rust_sqlpackage.Prelude.{
  ℕ, zero, suc, ◌+◌, ◌-◌, ◌*◌, ◌^◌, ◌≤◌, ◌<◌, min, String, ◌≡◌, refl, sym, ap, ◌∙◌, ◌≢◌, ◌↔◌, ◌⊎◌,
  inl, inr, Bool, true, false, not, ◌&&◌, ◌||◌, Option, none, some, List, [], ◌∷◌, ◌++◌, map,
  append-nil, append_assoc, arith, ltb, leb, ◌==◌, if◌then◌else◌, ltb→lt, lt→ltb, leb→le, ==_iff,
  tests, Bool-cases, Option-cases, length, get_elem?, head?, take, drop, take_while, drop_while,
  length-append, take-append-drop, length-take, length-drop, get_elem?-append, drop-append,
  take-append, take_while-append-drop_while, Text, codes, to_ascii_lowercase, to_ascii_uppercase,
  eq_ignore_ascii_case, is_whitespace, trim_matches, trim, ℤ, pos, negsuc, parse_i64, parse_u64,
  neg_i64,
}
use rust_sqlpackage.Token.{Token, period, is_whitespace_token}
use rust_sqlpackage.TokenParser.{
  TokenParser, Parse, pure, fail, exec, asks, require, expect, ◌>>=◌, ◌>>◌, continue, is_at_end,
  advance, advance_by, skip_whitespace, skip_whitespace_loop, current_token, read_token,
  read_current, take_value, parse_identifier, parse_schema_qualified_name, check_token,
  check_keyword, check_word_ci, remaining, expect_keyword, expect_word_ci, expect_token,
}
use rust_sqlpackage.TokenParser.Cursor.{IsInside}

pub record Moves (p q : TokenParser) : Type 0 where
  pub same_tokens : q.tokens ≡ p.tokens
  pub forward : p.pos ≤ q.pos
  pub inside : q.pos ≤ length q.tokens

pub Moves-refl : (p : TokenParser) → IsInside p → Moves p p
Moves-refl p h = record { same_tokens = refl; forward = omega arith; inside = h }

pub Moves-trans : {p q r : TokenParser} → Moves p q → Moves q r → Moves p r
Moves-trans m n = record {
  same_tokens = n.same_tokens ∙ m.same_tokens;
  forward = omega arith;
  inside = n.inside;
}

pub advance-Moves : (p : TokenParser) → IsInside p → Moves p (advance p)
unfolding advance is_at_end
advance-Moves p h = ground arith

pub advance_by-Moves : (n : ℕ) (p : TokenParser) → IsInside p → Moves p (advance_by n p)
unfolding advance_by
advance_by-Moves n p h = record { same_tokens = refl; forward = omega arith; inside = omega arith }

skip_whitespace_loop-Moves :
    (f : ℕ) (p : TokenParser) → IsInside p → Moves p (skip_whitespace_loop f p)
unfolding skip_whitespace_loop
skip_whitespace_loop-Moves zero p h = Moves-refl p h
skip_whitespace_loop-Moves (suc f) p h =
    let m = advance-Moves p h in
    let onwards = Moves-trans m (skip_whitespace_loop-Moves f (advance p) m.inside) in
    elim (Option-cases (current_token p)) [
      | inl e ↦ rw (e, skip_whitespace_loop) (Moves-refl p h)
      | inr (t, e) ↦ elim (Bool-cases (is_whitespace_token t)) [
        | inl blank ↦ rw (e, skip_whitespace_loop) (rw blank onwards)
        | inr other ↦ rw (e, skip_whitespace_loop) (rw other (Moves-refl p h))
      ]
    ]

pub skip_whitespace-Moves : (p : TokenParser) → IsInside p → Moves p (skip_whitespace p)
unfolding skip_whitespace
skip_whitespace-Moves p = skip_whitespace_loop-Moves (remaining p) p

-- A method that moves, whatever it returns, and its rules.
pub record AllMove {ℓ} {A : Type ℓ} (m : Parse A) : Type ℓ where
  pub apply : (p : TokenParser) → IsInside p → Moves p (m p).1

pub take_value-Moves {ℓ} :
    {A : Type ℓ} (o : Option A) (p : TokenParser) → IsInside p → Moves p (take_value o p).1
take_value-Moves none p h = Moves-refl p h
take_value-Moves (some a) p h = advance-Moves p h

pub read_token-AllMove {ℓ} : {A : Type ℓ} (read : Token → Option A) → AllMove (read_token read)
read_token-AllMove read = record {
  apply = λ p h. elim (Bool-cases (is_at_end p)) [
    | inl e ↦ rw e (Moves-refl p h)
    | inr e ↦ rw e (take_value-Moves (read_current read (current_token p)) p h)
  ];
}

continue-Moves {ℓ κ} :
    {A : Type ℓ} {B : Type κ} (f : A → Parse B) (p : TokenParser) (r : Option A × TokenParser)
    → Moves p r.1
    → ((a : A) → AllMove (f a))
    → Moves p (continue f r).1
unfolding continue
continue-Moves f p (none, q) m k = m
continue-Moves f p (some a, q) m k = Moves-trans m ((k a).apply q m.inside)

module _ {ℓ κ} {A : Type ℓ} {B : Type κ} where
  pub AllMove-bind :
      (m : Parse A) (f : A → Parse B) → AllMove m → ((a : A) → AllMove (f a)) → AllMove (m >>= f)
  AllMove-bind m f hm hf = record { apply = λ p h. continue-Moves f p (m p) (hm.apply p h) hf }

pub AllMove-if {ℓ} :
    {A : Type ℓ} (b : Bool) (m n : Parse A) → AllMove m → AllMove n → AllMove (if b then m else n)
AllMove-if true m n hm hn = hm
AllMove-if false m n hm hn = hn

pub expect-AllMove : (test : TokenParser → Bool) → AllMove (expect test)
unfolding continue
expect-AllMove test = record {
  apply = λ p h. elim (Bool-cases (test p)) [
    | inl e ↦ rw e (advance-Moves p h)
    | inr e ↦ rw e (Moves-refl p h)
  ];
}

pub exec-AllMove :
    (f : TokenParser → TokenParser)
    → ((p : TokenParser) → IsInside p → Moves p (f p))
    → AllMove (exec f)
exec-AllMove f h = record { apply = h }

pub asks-AllMove {ℓ} : {A : Type ℓ} (f : TokenParser → A) → AllMove (asks f)
asks-AllMove f = record { apply = Moves-refl }

pub pure-AllMove {ℓ} : {A : Type ℓ} (a : A) → AllMove (pure a)
pure-AllMove a = record { apply = Moves-refl }

pub parse_identifier-AllMove : AllMove parse_identifier
unfolding parse_identifier
parse_identifier-AllMove = read_token-AllMove _

pub advance-AllMove : AllMove (exec advance)
advance-AllMove = exec-AllMove advance advance-Moves

pub skip_whitespace-AllMove : AllMove (exec skip_whitespace)
skip_whitespace-AllMove = exec-AllMove skip_whitespace skip_whitespace-Moves

pub parse_schema_qualified_name-AllMove : AllMove parse_schema_qualified_name
unfolding parse_schema_qualified_name
parse_schema_qualified_name-AllMove = AllMove-bind _ _ parse_identifier-AllMove λ first.
    AllMove-bind _ _ skip_whitespace-AllMove λ _.
      AllMove-bind _ _ (asks-AllMove (check_token period)) λ dot.
        AllMove-if dot _ _
          (AllMove-bind _ _ advance-AllMove λ _.
            AllMove-bind _ _ skip_whitespace-AllMove
              λ _. AllMove-bind _ _ parse_identifier-AllMove λ second. pure-AllMove (first, second))
          (pure-AllMove (codes "dbo", first))
