-- ===== src/TokenParser/Cursor.antt =====
-- A token parser at a position inside its tokens, as the tokens before the position and those from
-- it on. The lemmas say what each method does to these two lists.
use rust_sqlpackage.Prelude.{
  ℕ, zero, suc, ◌≤◌, ◌≡◌, refl, sym, ◌∙◌, inl, inr, Bool, true, false, Option, none, some, List, [],
  ◌∷◌, ◌++◌, append-nil, append_assoc, arith, Bool-cases, Option-cases, length, head?, is_nil, take,
  drop, take_while, drop_while, length-append, take-append-drop, length-take, get_elem?-append,
  Text,
}
use rust_sqlpackage.Token.{Token, is_whitespace_token, Keyword}
use rust_sqlpackage.TokenParser.{
  TokenParser, remaining, is_at_end, current_token, advance, skip_whitespace_loop, skip_whitespace,
  current_is, check_keyword, check_word_ci, check_token, is_keyword, is_word_ci, same_kind,
  parse_identifier, identifier_of, read_token, read_current,
}

-- Shut, so that the equations below fit; `pos-cursor` and `tokens-cursor` read it.
unfoldable pub cursor : List Token → List Token → TokenParser
cursor before ts = record { tokens = before ++ ts; pos = length before }

abbrev pub head_is : (Token → Bool) → List Token → Bool
head_is test [] = false
head_is test (t ∷ ts) = test t

-- A position inside the tokens, or at their end.
abbrev pub IsInside : TokenParser → Type 0
IsInside p = p.pos ≤ length p.tokens

abbrev pub before_of : TokenParser → List Token
before_of p = take p.pos p.tokens

abbrev pub rest_of : TokenParser → List Token
rest_of p = drop p.pos p.tokens

parser_path : (p q : TokenParser) → p.tokens ≡ q.tokens → p.pos ≡ q.pos → p ≡ q
parser_path p q e f = ground arith

pub cursor-of : (p : TokenParser) → IsInside p → p ≡ cursor (before_of p) (rest_of p)
unfolding cursor
cursor-of p h =
    parser_path p (cursor (before_of p) (rest_of p)) (sym (take-append-drop p.pos p.tokens))
      (omega (arith, length-take p.pos p.tokens))

pub pos-cursor : (b ts : List Token) → (cursor b ts).pos ≡ length b
unfolding cursor
pos-cursor b ts = refl

pub tokens-cursor : (b ts : List Token) → (cursor b ts).tokens ≡ b ++ ts
unfolding cursor
tokens-cursor b ts = refl

pub remaining-cursor : (b ts : List Token) → remaining (cursor b ts) ≡ length ts
unfolding cursor
remaining-cursor b ts = omega (arith, length-append b ts)

pub current_token-cursor : (b ts : List Token) → current_token (cursor b ts) ≡ head? ts
unfolding current_token cursor
current_token-cursor b ts = get_elem?-append b ts

pub is_at_end-cursor : (b ts : List Token) → is_at_end (cursor b ts) ≡ is_nil ts
unfolding is_at_end cursor
is_at_end-cursor b [] = ground (arith, length-append b [])
is_at_end-cursor b (t ∷ ts) = ground (arith, length-append b (t ∷ ts))

pub advance-cursor :
    (b : List Token) (t : Token) (ts : List Token)
    → advance (cursor b (t ∷ ts)) ≡ cursor (b ++ t ∷ []) ts
unfolding advance cursor
advance-cursor b t ts =
    ground
      (arith, is_at_end-cursor b (t ∷ ts), append_assoc b (t ∷ []) ts, length-append b (t ∷ []))

pub advance-cursor_nil : (b : List Token) → advance (cursor b []) ≡ cursor b []
unfolding advance is_at_end cursor
advance-cursor_nil b = ground (arith, length-append b [])

pub current_is-cursor :
    (test : Token → Bool) (b ts : List Token) → current_is test (cursor b ts) ≡ head_is test ts
current_is-cursor test b [] = rw (current_token-cursor b [], current_is)
current_is-cursor test b (t ∷ ts) = rw (current_token-cursor b (t ∷ ts), current_is)

module _ (b ts : List Token) where
  pub check_token-cursor :
      (expected : Token) → check_token expected (cursor b ts) ≡ head_is (same_kind expected) ts
  unfolding check_token
  check_token-cursor expected = current_is-cursor (same_kind expected) b ts

  pub check_keyword-cursor :
      (k : Keyword) → check_keyword k (cursor b ts) ≡ head_is (is_keyword k) ts
  unfolding check_keyword
  check_keyword-cursor k = current_is-cursor (is_keyword k) b ts

  pub check_word_ci-cursor : (s : Text) → check_word_ci s (cursor b ts) ≡ head_is (is_word_ci s) ts
  unfolding check_word_ci
  check_word_ci-cursor s = current_is-cursor (is_word_ci s) b ts

skip_whitespace_loop-cursor :
    (f : ℕ) (b ts : List Token)
    → length ts ≤ f
    → skip_whitespace_loop f (cursor b ts)
      ≡ cursor (b ++ take_while is_whitespace_token ts) (drop_while is_whitespace_token ts)
unfolding skip_whitespace_loop
skip_whitespace_loop-cursor zero b [] h = simp append-nil
skip_whitespace_loop-cursor zero b (t ∷ ts) h = elim h [ ]
skip_whitespace_loop-cursor (suc f) b [] h =
    rw (current_token-cursor b [], skip_whitespace_loop) (simp append-nil)
skip_whitespace_loop-cursor (suc f) b (t ∷ ts) h = elim (Bool-cases (is_whitespace_token t)) [
  | inl blank ↦
      rw (current_token-cursor b (t ∷ ts), advance-cursor b t ts, skip_whitespace_loop)
        (rw blank
          (skip_whitespace_loop-cursor f (b ++ t ∷ []) ts (omega arith) ∙ simp append_assoc))
  | inr other ↦
      rw (current_token-cursor b (t ∷ ts), skip_whitespace_loop) (rw other (simp append-nil))
]

abbrev pub skip_blank : List Token → List Token
skip_blank = drop_while is_whitespace_token

abbrev pub blanks : List Token → List Token
blanks = take_while is_whitespace_token

-- White space is skipped as far as it goes.
pub skip_whitespace-cursor :
    (b ts : List Token) → skip_whitespace (cursor b ts) ≡ cursor (b ++ blanks ts) (skip_blank ts)
unfolding skip_whitespace cursor
skip_whitespace-cursor b ts = skip_whitespace_loop-cursor _ b ts (omega (arith, length-append b ts))

-- What a method that reads one token does at a cursor.
abbrev pub read_at {ℓ} :
    {A : Type ℓ} → (Token → Option A) → List Token → List Token → Option A × TokenParser
read_at read b [] = (none, cursor b [])
read_at read b (t ∷ ts) = elim (read t) [
  | none ↦ (none, cursor b (t ∷ ts))
  | some a ↦ (some a, cursor (b ++ t ∷ []) ts)
]

pub read_token-cursor {ℓ} :
    {A : Type ℓ} (read : Token → Option A) (b ts : List Token)
    → read_token read (cursor b ts) ≡ read_at read b ts
read_token-cursor read b [] = rw (is_at_end-cursor b [])
read_token-cursor read b (t ∷ ts) =
    rw (is_at_end-cursor b (t ∷ ts), current_token-cursor b (t ∷ ts), read_current)
      (elim (Option-cases (read t)) [
        | inl e ↦ rw (e, read_at)
        | inr (a, e) ↦ rw (e, read_at, advance-cursor b t ts)
      ])

pub parse_identifier-cursor :
    (b ts : List Token) → parse_identifier (cursor b ts) ≡ read_at identifier_of b ts
unfolding parse_identifier
parse_identifier-cursor b ts = read_token-cursor identifier_of b ts

-- The methods at a cursor, as equations for `simp` and `rw`.
pub ruleset cursor_laws = (
  advance-cursor, check_token-cursor, check_keyword-cursor, check_word_ci-cursor,
  parse_identifier-cursor, is_at_end-cursor, current_token-cursor,
)

-- Lists of white space tokens, and skipping over one.
abbrev pub AllBlank : List Token → Type 0
AllBlank [] = Unit
AllBlank (t ∷ ts) = (is_whitespace_token t ≡ true) × AllBlank ts

module _ (t : Token) (ts : List Token) (solid : is_whitespace_token t ≡ false) where
  pub skip_blank-append : (ws : List Token) → AllBlank ws → skip_blank (ws ++ (t ∷ ts)) ≡ t ∷ ts
  skip_blank-append [] h = rw solid
  skip_blank-append (w ∷ ws) h = rw h.0 (skip_blank-append ws h.1)

  pub blanks-append : (ws : List Token) → AllBlank ws → blanks (ws ++ (t ∷ ts)) ≡ ws
  blanks-append [] h = rw solid
  blanks-append (w ∷ ws) h = rw h.0 (rw (blanks-append ws h.1))

  -- White space in front of another token is skipped.
  pub skip_whitespace-blanks :
      (b ws : List Token)
      → AllBlank ws
      → skip_whitespace (cursor b (ws ++ (t ∷ ts))) ≡ cursor (b ++ ws) (t ∷ ts)
  skip_whitespace-blanks b ws h =
      skip_whitespace-cursor b (ws ++ (t ∷ ts)) ∙ rw (skip_blank-append ws h, blanks-append ws h)
