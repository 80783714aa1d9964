-- ===== src/Preprocess/Ends.antt =====
-- The rounds of the loop of `preprocess` in src/parser/preprocess_parser.rs, and its end.
use rust_sqlpackage.Prelude.{
  ℕ, zero, suc, ◌≤◌, ◌<◌, ◌≡◌, refl, ap, ◌∙◌, inl, inr, true, false, Option, none, some, List, [],
  arith, Bool-cases, length, Text,
}
use rust_sqlpackage.Token.{Token, Sqlparser}
use rust_sqlpackage.TokenParser.{TokenParser, is_at_end, advance, remaining, from_tokens}
use rust_sqlpackage.TokenParser.Cursor.{IsInside}
use rust_sqlpackage.Preprocess.{PreprocessState, step, copy_step, default_step, binary_step, run}
use rust_sqlpackage.Preprocess.Steps.{
  ExtractedDefaultConstraint, try_parse_binary_max, try_parse_default_for, is_trailing_comma,
}
use rust_sqlpackage.Preprocess.Safe.{Result}
use rust_sqlpackage.Preprocess.Attempts.{binary_max_from-Safe, default_for_from-Safe}

-- A round from `p` ends inside the same tokens, further on.
record Progress (p q : TokenParser) : Type 0 where
  same_tokens : q.tokens ≡ p.tokens
  later : p.pos < q.pos
  inside : q.pos ≤ length q.tokens

Progress-of_Result {ℓ} :
    {A : Type ℓ} (n start : ℕ) (p q : TokenParser) (a : A)
    → Result (suc n) start p (some a, q)
    → Progress p q
Progress-of_Result n start p q a h = record {
  same_tokens = h.same_tokens;
  later = omega (arith, h.gains a refl);
  inside = h.inside;
}

Progress-after :
    {p q r : TokenParser} → q.tokens ≡ p.tokens → p.pos ≤ q.pos → Progress q r → Progress p r
Progress-after e h g = record {
  same_tokens = g.same_tokens ∙ e;
  later = omega (arith, g.later);
  inside = g.inside;
}

copy_step-Progress :
    (s : PreprocessState) (p : TokenParser)
    → s.base.tokens ≡ p.tokens
    → p.pos ≤ s.base.pos
    → s.base.pos ≤ length s.base.tokens
    → is_at_end p ≡ false
    → Progress p (copy_step s).base
unfolding copy_step advance is_at_end
copy_step-Progress s p e h i n =
    let len = ap length e in
    elim (Bool-cases (is_trailing_comma s.base)) [
      | inl c ↦
          rw c (record { same_tokens = ground arith; later = ground arith; inside = ground arith })
      | inr c ↦
          rw c (record { same_tokens = ground arith; later = ground arith; inside = ground arith })
    ]

default_step-Progress :
    (s : PreprocessState) (p q : TokenParser) (r : Option ExtractedDefaultConstraint × TokenParser)
    → is_at_end p ≡ false
    → q.tokens ≡ p.tokens
    → p.pos ≤ q.pos
    → Result 2 q.pos q r
    → Progress p (default_step s r).base
default_step-Progress s p q (some d, t) n e h g =
    Progress-after e h (Progress-of_Result 1 q.pos q t d g)
default_step-Progress s p q (none, t) n e h g =
    copy_step-Progress (record s { base = t }) p (g.same_tokens ∙ e) (omega (arith, g.above))
      g.inside n

binary_step-Progress :
    (s : PreprocessState) (p : TokenParser) (r : Option Text × TokenParser)
    → is_at_end p ≡ false
    → Result 1 p.pos p r
    → Progress p (binary_step s r).base
unfolding try_parse_default_for
binary_step-Progress s p (some t, q) n g = Progress-of_Result 0 p.pos p q t g
binary_step-Progress s p (none, q) n g =
    default_step-Progress (record s { base = q }) p q (try_parse_default_for q) n g.same_tokens
      g.above ((default_for_from-Safe q.pos).apply q g.inside (omega arith))

module _ (lib : Sqlparser) where
  step-Progress :
      (s : PreprocessState)
      → IsInside s.base
      → is_at_end s.base ≡ false
      → Progress s.base (step lib s).base
  unfolding step try_parse_binary_max
  step-Progress s i n =
      binary_step-Progress s s.base (try_parse_binary_max lib s.base) n
        ((binary_max_from-Safe lib s.base.pos).apply s.base i (omega arith))

  run-ends :
      (f : ℕ) (s : PreprocessState)
      → IsInside s.base
      → remaining s.base ≤ f
      → is_at_end (run lib f s).base ≡ true
  unfolding run
  run-ends zero s i h = unfold is_at_end in ground arith
  run-ends (suc f) s i h = elim (Bool-cases (is_at_end s.base)) [
    | inl e ↦ rw e e
    | inr e ↦
        let g = step-Progress s i e in
        rw e (run-ends f (step lib s) g.inside (omega (arith, g.later, ap length g.same_tokens)))
  ]

-- From any tokens, a round for each is enough: the loop of `preprocess` ends with no token left.
pub run-is_at_end :
    (lib : Sqlparser) (ts : List Token)
    → is_at_end
        (run lib (length ts) (record { output = []; extracted = []; base = from_tokens ts })).base
      ≡ true
run-is_at_end lib ts =
    run-ends lib (length ts) (record { output = []; extracted = []; base = from_tokens ts })
      (omega arith) (omega arith)
