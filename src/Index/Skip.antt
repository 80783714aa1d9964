-- ===== src/Index/Skip.antt =====
-- `skip_to_comma_or_paren` over the rest of an option.
use rust_sqlpackage.Prelude.{
  ℕ, zero, suc, ◌<◌, ◌≡◌, refl, ap, ◌∙◌, Bool, true, false, List, [], ◌∷◌, ◌++◌, append-nil,
  append_assoc, arith, length, length-append,
}
use rust_sqlpackage.Token.{Token, r_paren, comma, discriminant, is_whitespace_token}
use rust_sqlpackage.TokenParser.{TokenParser, same_kind, remaining}
use rust_sqlpackage.TokenParser.Cursor.{
  cursor, AllBlank, remaining-cursor, is_at_end-cursor, check_token-cursor, advance-cursor,
}
use rust_sqlpackage.Constraint.Columns.{separator}
use rust_sqlpackage.Index.Options.{skip_loop, skip_to_comma_or_paren}

-- Tokens that are neither a comma nor a closing parenthesis.
abbrev pub Plain : List Token → Type 0
Plain [] = Unit
Plain (t ∷ ts) = (same_kind comma t ≡ false) × (same_kind r_paren t ≡ false) × Plain ts

blank_comma : (t : Token) → is_whitespace_token t ≡ true → same_kind comma t ≡ false
unfolding is_whitespace_token discriminant
blank_comma comma h = cc
blank_comma (Token.other n s) h = cc
blank_comma _ h = refl

pub blank_r_paren : (t : Token) → is_whitespace_token t ≡ true → same_kind r_paren t ≡ false
unfolding is_whitespace_token discriminant
blank_r_paren r_paren h = cc
blank_r_paren (Token.other n s) h = cc
blank_r_paren _ h = refl

pub blank-Plain : (ws us : List Token) → AllBlank ws → Plain us → Plain (ws ++ us)
blank-Plain [] us h k = k
blank-Plain (w ∷ ws) us h k = (blank_comma w h.0, blank_r_paren w h.0, blank-Plain ws us h.1 k)

-- Where the skip stops.
abbrev pub stopped : Bool → List Token → List Token → TokenParser
stopped true b ts = cursor (b ++ comma ∷ []) ts
stopped false b ts = cursor b (r_paren ∷ ts)

skip_loop-stopped :
    (f : ℕ) (more : Bool) (b ts : List Token)
    → skip_loop (suc f) (cursor b (separator more ∷ ts)) ≡ stopped more b ts
unfolding skip_loop discriminant
skip_loop-stopped f true b ts = simp (is_at_end-cursor, check_token-cursor, advance-cursor)
skip_loop-stopped f false b ts = simp (is_at_end-cursor, check_token-cursor, advance-cursor)

skip_loop-plain :
    (f : ℕ) (ws : List Token) (more : Bool) (b ts : List Token)
    → length ws < f
    → Plain ws
    → skip_loop f (cursor b (ws ++ (separator more ∷ ts))) ≡ stopped more (b ++ ws) ts
unfolding skip_loop
skip_loop-plain zero ws more b ts k h = absurd (omega (arith, k))
skip_loop-plain (suc f) [] more b ts k h = rw (append-nil b) (skip_loop-stopped f more b ts)
skip_loop-plain (suc f) (w ∷ ws) more b ts k h =
    let us = ws ++ (separator more ∷ ts) in
    rw
      (
        is_at_end-cursor b (w ∷ us),
        check_token-cursor b (w ∷ us) comma,
        check_token-cursor b (w ∷ us) r_paren,
        h.0,
        h.1,
        advance-cursor b w us,
      )
      (skip_loop-plain f ws more (b ++ w ∷ []) ts (omega (arith, k)) h.2
        ∙ ap (λ c. stopped more c ts) (append_assoc b (w ∷ []) ws))

-- Behind tokens without a comma or a closing parenthesis the skip stops behind the comma, or in front
-- of the parenthesis.
pub skip_to_comma_or_paren-plain :
    (ws : List Token) (more : Bool) (b ts : List Token)
    → Plain ws
    → skip_to_comma_or_paren (cursor b (ws ++ (separator more ∷ ts))) ≡ stopped more (b ++ ws) ts
unfolding skip_to_comma_or_paren
skip_to_comma_or_paren-plain ws more b ts h =
    let us = ws ++ (separator more ∷ ts) in
    skip_loop-plain (remaining (cursor b us)) ws more b ts
      (omega (arith, remaining-cursor b us, length-append ws (separator more ∷ ts))) h
