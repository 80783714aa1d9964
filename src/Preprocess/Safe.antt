-- ===== src/Preprocess/Safe.antt =====
-- A logic for attempts that may go back to their start: how far each step keeps the position.
use rust_sqlpackage.Prelude.{
  ℕ, ◌+◌, ◌≤◌, ◌≡◌, refl, ◌∙◌, inl, inr, Bool, false, Option, none, some, arith, Bool-cases, length,
}
use rust_sqlpackage.Token.{Token}
use rust_sqlpackage.TokenParser.{
  TokenParser, Parse, continue, pure, exec, ◌>>=◌, is_at_end, set_pos, advance, skip_whitespace,
  current_token, read_token, take_value, read_current, parse_identifier,
}
use rust_sqlpackage.TokenParser.Cursor.{IsInside}
use rust_sqlpackage.TokenParser.Bounds.{Moves, Moves-refl, advance-Moves, skip_whitespace-Moves}
use rust_sqlpackage.Preprocess.Steps.{refuse, require_or_reset, of_option}

-- The result of an attempt that began at `start` or later, from `p`: the parser is inside the tokens
-- and not before `start`, and on success it has moved on by `gain` at least.
pub record Result {ℓ} {A : Type ℓ} (gain start : ℕ) (p : TokenParser) (r : Option A × TokenParser)
    : Type ℓ where
  pub same_tokens : r.1.tokens ≡ p.tokens
  pub above : start ≤ r.1.pos
  pub inside : r.1.pos ≤ length r.1.tokens
  pub gains : (a : A) → r.0 ≡ some a → p.pos + gain ≤ r.1.pos

pub record Safe {ℓ} {A : Type ℓ} (gain start : ℕ) (m : Parse A) : Type ℓ where
  pub apply : (p : TokenParser) → IsInside p → start ≤ p.pos → Result gain start p (m p)

pub Result-of_Moves {ℓ} :
    {A : Type ℓ} (start : ℕ) (p : TokenParser) (r : Option A × TokenParser)
    → start ≤ p.pos
    → Moves p r.1
    → Result 0 start p r
Result-of_Moves start p r h m = record {
  same_tokens = m.same_tokens;
  above = omega (arith, m.forward);
  inside = m.inside;
  gains = λ a e. omega (arith, m.forward);
}

pub continue-Result {ℓ κ} :
    {A : Type ℓ} {B : Type κ} (i j start : ℕ) (f : A → Parse B) (p : TokenParser)
    (r : Option A × TokenParser)
    → Result i start p r
    → ((a : A) → Safe j start (f a))
    → Result (i + j) start p (continue f r)
unfolding continue
continue-Result i j start f p (none, q) h k = record {
  same_tokens = h.same_tokens;
  above = h.above;
  inside = h.inside;
  gains = λ a e. cc;
}
continue-Result i j start f p (some a, q) h k =
    let next = (k a).apply q h.inside h.above in
    record {
      same_tokens = next.same_tokens ∙ h.same_tokens;
      above = next.above;
      inside = next.inside;
      gains = λ b e. omega (arith, h.gains a refl, next.gains b e);
    }

module _ {ℓ κ} {A : Type ℓ} {B : Type κ} (i j start : ℕ) where
  pub Safe-bind :
      (m : Parse A) (f : A → Parse B)
      → Safe i start m
      → ((a : A) → Safe j start (f a))
      → Safe (i + j) start (m >>= f)
  Safe-bind m f hm hf = record {
    apply = λ p h s. continue-Result i j start f p (m p) (hm.apply p h s) hf;
  }

module _ (start : ℕ) where
  pub Safe-of_Moves :
      (f : TokenParser → TokenParser)
      → ((p : TokenParser) → IsInside p → Moves p (f p))
      → Safe 0 start (exec f)
  Safe-of_Moves f h = record { apply = λ p i s. Result-of_Moves start p _ s (h p i) }

  pub advance-Safe : Safe 0 start (exec advance)
  advance-Safe = Safe-of_Moves advance advance-Moves

  pub skip_whitespace-Safe : Safe 0 start (exec skip_whitespace)
  skip_whitespace-Safe = Safe-of_Moves skip_whitespace skip_whitespace-Moves

  pub refuse-Safe : (test : TokenParser → Bool) → Safe 0 start (refuse test)
  refuse-Safe test = record { apply = λ p i s. Result-of_Moves start p _ s (Moves-refl p i) }

  pub of_option-Safe {ℓ} : {A : Type ℓ} (f : TokenParser → Option A) → Safe 0 start (of_option f)
  of_option-Safe f = record { apply = λ p i s. Result-of_Moves start p _ s (Moves-refl p i) }

  pub pure-Safe {ℓ} : {A : Type ℓ} (a : A) → Safe 0 start (pure a)
  pure-Safe a = record { apply = λ p i s. Result-of_Moves start p _ s (Moves-refl p i) }

  pub reset-Result {ℓ} :
      {A : Type ℓ} (gain : ℕ) (p : TokenParser)
      → IsInside p
      → start ≤ p.pos
      → Result {A = A} gain start p (none, set_pos start p)
  unfolding set_pos
  reset-Result gain p i s = record {
    same_tokens = refl;
    above = omega arith;
    inside = omega arith;
    gains = λ a e. cc;
  }

  pub require_or_reset-Safe :
      (test : TokenParser → Bool) → Safe 0 start (require_or_reset start test)
  require_or_reset-Safe test = record {
    apply = λ p i s. elim (Bool-cases (test p)) [
      | inl e ↦ rw e (Result-of_Moves start p _ s (Moves-refl p i))
      | inr e ↦ rw e (reset-Result 0 p i s)
    ];
  }

  pub take_value-Result {ℓ} :
      {A : Type ℓ} (o : Option A) (p : TokenParser)
      → IsInside p
      → start ≤ p.pos
      → is_at_end p ≡ false
      → Result 1 start p (take_value o p)
  unfolding advance is_at_end
  take_value-Result none p i s e = record {
    same_tokens = refl;
    above = s;
    inside = i;
    gains = λ a e'. cc;
  }
  take_value-Result (some a) p i s e = record {
    same_tokens = ground arith;
    above = ground arith;
    inside = ground arith;
    gains = λ b e'. ground arith;
  }

  read_token-Safe {ℓ} : {A : Type ℓ} (read : Token → Option A) → Safe 1 start (read_token read)
  read_token-Safe read = record {
    apply = λ p i s. elim (Bool-cases (is_at_end p)) [
      | inl e ↦ rw e (record { same_tokens = refl; above = s; inside = i; gains = λ a e'. cc })
      | inr e ↦ rw e (take_value-Result (read_current read (current_token p)) p i s e)
    ];
  }

  pub parse_identifier-Safe : Safe 1 start parse_identifier
  unfolding parse_identifier
  parse_identifier-Safe = read_token-Safe _
