-- ===== src/Sequence/Run.antt =====
-- The loop over a sequence's options.
use rust_sqlpackage.Prelude.{
  ℕ, zero, suc, ◌≤◌, ◌≡◌, refl, ap, ◌∙◌, Bool, false, List, [], ◌∷◌, ◌++◌, append-nil, append_assoc,
  arith, length, is_nil, length-append,
}
use rust_sqlpackage.Token.{Token, Sqlparser, is_whitespace_token}
use rust_sqlpackage.TokenParser.{remaining}
use rust_sqlpackage.TokenParser.Cursor.{
  cursor, AllBlank, blanks, skip_blank, skip_whitespace-cursor, is_at_end-cursor, remaining-cursor,
}
use rust_sqlpackage.Preprocess.Replace.{attempt_laws}
use rust_sqlpackage.Sequence.{TokenParsedSequence, options_loop, parse_sequence_options}
use rust_sqlpackage.Sequence.Options.{
  SequenceOption, option_tokens, behind, apply, IsOption, option_at-option, behind-append,
}

-- An option with the white space in front of it and inside it.
pub record Spaced : Type 0 where
  pub option : SequenceOption
  pub gap₀ : List Token
  pub gap₁ : List Token
  pub gap₂ : List Token

abbrev pub one : Bool → Spaced → List Token → List Token
one is_alter s ts = s.gap₀ ++ option_tokens is_alter s.option s.gap₁ s.gap₂ ts

unfoldable pub options_tokens : Bool → List Spaced → List Token → List Token
options_tokens is_alter [] ts = ts
options_tokens is_alter (s ∷ ss) ts = one is_alter s (options_tokens is_alter ss ts)

-- The options one after the other: where two speak of the same, the later one counts.
unfoldable pub apply_all : Sqlparser → List Spaced → TokenParsedSequence → TokenParsedSequence
apply_all lib [] r = r
apply_all lib (s ∷ ss) r = apply_all lib ss (apply lib s.option r)

abbrev pub IsSpaced : Bool → Spaced → Type 0
IsSpaced is_alter s =
    AllBlank s.gap₀ × AllBlank s.gap₁ × AllBlank s.gap₂ × IsOption is_alter s.option

abbrev pub AreSpaced : Bool → List Spaced → Type 0
AreSpaced is_alter [] = Unit
AreSpaced is_alter (s ∷ ss) = IsSpaced is_alter s × AreSpaced is_alter ss

pub is_nil-append :
    (ws : List Token) (t : Token) (ts : List Token) → is_nil (ws ++ (t ∷ ts)) ≡ false
is_nil-append [] t ts = refl
is_nil-append (w ∷ ws) t ts = refl

module _ (lib : Sqlparser) (is_alter : Bool) where
  options_loop-one :
      (f : ℕ) (r : TokenParsedSequence) (s : Spaced) (b ts : List Token)
      → IsSpaced is_alter s
      → options_loop (suc f) lib is_alter r (cursor b (one is_alter s ts))
        ≡ options_loop f lib is_alter (apply lib s.option r) (cursor (b ++ one is_alter s []) ts)
  unfolding options_loop is_whitespace_token
  options_loop-one f r s b ts (h₀, h₁, h₂, ho) = simp (
    attempt_laws,
    is_nil-append,
    option_at-option lib r (b ++ s.gap₀) s.gap₁ s.gap₂ ts h₁ h₂ is_alter s.option ho,
  )

  AllBlank-ends : (ws : List Token) → AllBlank ws → (skip_blank ws ≡ []) × (blanks ws ≡ ws)
  AllBlank-ends [] h = (refl, refl)
  AllBlank-ends (w ∷ ws) h =
      let (e, e') = AllBlank-ends ws h.1 in (rw h.0 e, rw h.0 (ap (◌∷◌ w) e'))

  options_loop-end :
      (f : ℕ) (r : TokenParsedSequence) (b ws : List Token)
      → AllBlank ws
      → length ws ≤ f
      → options_loop f lib is_alter r (cursor b ws) ≡ (r, cursor (b ++ ws) [])
  unfolding options_loop
  options_loop-end zero r b [] h k = simp append-nil
  options_loop-end zero r b (w ∷ ws) h k = elim k [ ]
  options_loop-end (suc f) r b [] h k = rw (is_at_end-cursor b []) (simp append-nil)
  options_loop-end (suc f) r b (w ∷ ws) h k =
      let (e, e') = AllBlank-ends (w ∷ ws) h in
      rw (
        is_at_end-cursor b (w ∷ ws),
        skip_whitespace-cursor b (w ∷ ws),
        e,
        e',
        is_at_end-cursor (b ++ (w ∷ ws)) [],
      )

  one_longer : (s : Spaced) (ts : List Token) → suc (length ts) ≤ length (one is_alter s ts)
  one_longer s ts = omega (
    arith,
    length-append s.gap₀ (option_tokens is_alter s.option s.gap₁ s.gap₂ ts),
    ap length (behind-append s.option s.gap₁ s.gap₂ [] ts),
    length-append (behind s.option s.gap₁ s.gap₂ []) ts,
  )

  nothing_left : (s : Spaced) (ts : List Token) → length (one is_alter s ts) ≤ 0 → ⊥
  nothing_left s ts h = omega (arith, one_longer s ts)

  options_loop-options :
      (f : ℕ) (r : TokenParsedSequence) (ss : List Spaced) (b ws : List Token)
      → AreSpaced is_alter ss
      → AllBlank ws
      → length (options_tokens is_alter ss ws) ≤ f
      → options_loop f lib is_alter r (cursor b (options_tokens is_alter ss ws))
        ≡ (apply_all lib ss r, cursor (b ++ options_tokens is_alter ss ws) [])
  unfolding options_tokens apply_all
  options_loop-options f r [] b ws sp h k = options_loop-end f r b ws h k
  options_loop-options zero r (s ∷ ss) b ws sp h k =
      elim (nothing_left s (options_tokens is_alter ss ws) k) [ ]
  options_loop-options (suc f) r (s ∷ ss) b ws sp h k =
      let us = options_tokens is_alter ss ws in
      options_loop-one f r s b us sp.0
      ∙ options_loop-options f (apply lib s.option r) ss (b ++ one is_alter s []) ws sp.1 h
          (omega (arith, one_longer s us))
      ∙ simp (append_assoc, behind-append)

  -- Any list of options, AS with a type (in CREATE only), START WITH (in ALTER, RESTART WITH),
  -- INCREMENT BY, MINVALUE, MAXVALUE or CACHE with a number, NO MINVALUE, NO MAXVALUE, NO
  -- CYCLE, NO CACHE or CYCLE, with any white space before, inside and behind them, is read to
  -- its end and gives the sequence that the options describe one after the other. A number is
  -- written in decimal digits, is below 2^63, and has a minus sign in front or not.
  pub parse_sequence_options-options :
      (r : TokenParsedSequence) (ss : List Spaced) (b ws : List Token)
      → AreSpaced is_alter ss
      → AllBlank ws
      → parse_sequence_options lib is_alter r (cursor b (options_tokens is_alter ss ws))
        ≡ (apply_all lib ss r, cursor (b ++ options_tokens is_alter ss ws) [])
  unfolding parse_sequence_options
  parse_sequence_options-options r ss b ws sp h =
      let us = options_tokens is_alter ss ws in
      options_loop-options (remaining (cursor b us)) r ss b ws sp h
        (omega (arith, remaining-cursor b us))
