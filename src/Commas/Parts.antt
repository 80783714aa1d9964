-- ===== src/Commas/Parts.antt =====
-- Parts with parentheses in balance, joined by commas and split again.
use rust_sqlpackage.Prelude.{
  ℕ, zero, suc, ◌≡◌, refl, sym, ap, ◌∙◌, true, false, ◌&&◌, List, [], ◌∷◌, ◌++◌, map, append-nil,
  append_assoc, arith, ◌==◌, is_nil, Text, trim_matches, trim, ℤ, pos,
}
use rust_sqlpackage.Commas.{is_zero, split_loop, split_by_top_level_comma_simple}

-- The text between two parentheses.
pub data Inner : Text → Type 0 where
  nil : Inner []
  char : {t : Text} (c : ℕ) → (c == b'(') ≡ false → (c == b')') ≡ false → Inner t → Inner (c ∷ t)
  parens : {t : Text} (body : Text) → Inner body → Inner t → Inner (b'(' ∷ (body ++ b')' ∷ t))

-- A part: its commas stand in parentheses.
pub data Nested : Text → Type 0 where
  nil : Nested []
  char :
      {t : Text} (c : ℕ)
      → (c == b'(') ≡ false
      → (c == b')') ≡ false
      → (c == b',') ≡ false
      → Nested t
      → Nested (c ∷ t)
  parens : {t : Text} (body : Text) → Inner body → Nested t → Nested (b'(' ∷ (body ++ b')' ∷ t))

abbrev pub AreParts : List Text → Type 0
AreParts [] = Unit
AreParts (p ∷ ps) = Nested p × (is_nil (trim p) ≡ false) × AreParts ps

abbrev pub join_commas : List Text → Text
join_commas [] = []
join_commas (p ∷ []) = p
join_commas (p ∷ q ∷ ps) = p ++ b',' ∷ join_commas (q ∷ ps)

char_step :
    (d : ℤ) (c : ℕ) (current cs : Text)
    → (c == b'(') ≡ false
    → (c == b')') ≡ false
    → (c == b',' && is_zero d) ≡ false
    → split_loop d current (c ∷ cs) ≡ split_loop d (current ++ c ∷ []) cs
unfolding split_loop
char_step d c current cs h k l = simp (h, k, l)

-- A group one level deeper than `pos n` leads back to it.
group_step :
    (n : ℕ) (current body rest : Text)
    → ((current' rest' : Text)
        → split_loop (pos (suc n)) current' (body ++ rest')
          ≡ split_loop (pos (suc n)) (current' ++ body) rest')
    → split_loop (pos n) current (b'(' ∷ (body ++ b')' ∷ rest))
      ≡ split_loop (pos n) (current ++ b'(' ∷ (body ++ b')' ∷ [])) rest
unfolding split_loop
group_step n current body rest inner =
    inner (current ++ b'(' ∷ []) (b')' ∷ rest)
    ∙ ap (λ x. split_loop (pos n) x rest) (simp append_assoc)

no_comma : (c : ℕ) → (c == b',' && false) ≡ false
no_comma c = ground arith

split_loop-Inner :
    {t : Text} (n : ℕ) (current rest : Text)
    → Inner t
    → split_loop (pos (suc n)) current (t ++ rest) ≡ split_loop (pos (suc n)) (current ++ t) rest
split_loop-Inner n current rest nil =
    ap (λ x. split_loop (pos (suc n)) x rest) (sym (append-nil current))
split_loop-Inner n current rest (char {t} c h k i) =
    char_step (pos (suc n)) c current (t ++ rest) h k (no_comma c)
    ∙ split_loop-Inner n (current ++ c ∷ []) rest i
    ∙ ap (λ x. split_loop (pos (suc n)) x rest) (append_assoc current (c ∷ []) t)
split_loop-Inner n current rest (parens {t} body j i) =
    ap (λ x. split_loop (pos (suc n)) current (b'(' ∷ x)) (append_assoc body (b')' ∷ t) rest)
    ∙ group_step (suc n) current body (t ++ rest) (λ cur r. split_loop-Inner (suc n) cur r j)
    ∙ split_loop-Inner n (current ++ b'(' ∷ (body ++ b')' ∷ [])) rest i
    ∙ ap (λ x. split_loop (pos (suc n)) x rest) (simp append_assoc)

outside : (c : ℕ) → (c == b',') ≡ false → (c == b',' && true) ≡ false
outside c h = ground (arith, h)

split_loop-Nested :
    {t : Text} (current rest : Text)
    → Nested t
    → split_loop (pos zero) current (t ++ rest) ≡ split_loop (pos zero) (current ++ t) rest
split_loop-Nested current rest nil =
    ap (λ x. split_loop (pos zero) x rest) (sym (append-nil current))
split_loop-Nested current rest (char {t} c h k l i) =
    char_step (pos zero) c current (t ++ rest) h k (outside c l)
    ∙ split_loop-Nested (current ++ c ∷ []) rest i
    ∙ ap (λ x. split_loop (pos zero) x rest) (append_assoc current (c ∷ []) t)
split_loop-Nested current rest (parens {t} body j i) =
    ap (λ x. split_loop (pos zero) current (b'(' ∷ x)) (append_assoc body (b')' ∷ t) rest)
    ∙ group_step zero current body (t ++ rest) (λ cur r. split_loop-Inner zero cur r j)
    ∙ split_loop-Nested (current ++ b'(' ∷ (body ++ b')' ∷ [])) rest i
    ∙ ap (λ x. split_loop (pos zero) x rest) (simp append_assoc)

split_loop-parts :
    (p : Text) (ps : List Text)
    → AreParts (p ∷ ps)
    → split_loop (pos zero) [] (join_commas (p ∷ ps)) ≡ map trim (p ∷ ps)
unfolding split_loop
split_loop-parts p [] (n, some_text, h) =
    ap (split_loop (pos zero) []) (sym (append-nil p)) ∙ split_loop-Nested [] [] n ∙ simp some_text
split_loop-parts p (q ∷ ps) (n, some_text, h) =
    split_loop-Nested [] (b',' ∷ join_commas (q ∷ ps)) n
    ∙ ap (λ x. trim p ∷ x) (split_loop-parts q ps h)

-- Parts that are not blank, with parentheses in balance and every comma inside parentheses, joined by
-- commas, are split into these parts again, without the white space around them.
pub split_by_top_level_comma_simple-join_commas :
    (ps : List Text) → AreParts ps → split_by_top_level_comma_simple (join_commas ps) ≡ map trim ps
unfolding split_by_top_level_comma_simple split_loop trim_matches
split_by_top_level_comma_simple-join_commas [] h = refl
split_by_top_level_comma_simple-join_commas (p ∷ ps) h = split_loop-parts p ps h
