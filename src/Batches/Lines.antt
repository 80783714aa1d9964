-- ===== src/Batches/Lines.antt =====
-- The lines of a text, each with its ending, and the endings taken off again, as Rust's `str::lines`
-- does both.
use rust_sqlpackage.Prelude.{
  ℕ, suc, ◌+◌, ◌≡◌, refl, ◌⊎◌, inl, inr, Bool, true, false, ◌&&◌, Option, none, some, List, [], ◌∷◌,
  ◌++◌, append-nil, append_assoc, arith, ◌==◌, if◌then◌else◌, Text,
}

-- `str::split_inclusive('\n')`
abbrev pub on_first : ℕ → List Text → List Text
on_first c [] = (c ∷ []) ∷ []
on_first c (l ∷ ls) = (c ∷ l) ∷ ls

unfoldable pub split_inclusive : Text → List Text
split_inclusive [] = []
split_inclusive (c ∷ cs) =
    let rest = split_inclusive cs in if c == 10 then (10 ∷ []) ∷ rest else on_first c rest

-- `str::strip_suffix` of one character
unfoldable pub strip_suffix : ℕ → Text → Option Text
strip_suffix c [] = none
strip_suffix c (x ∷ []) = if x == c then some [] else none
strip_suffix c (x ∷ y ∷ xs) = elim (strip_suffix c (y ∷ xs)) [ none ↦ none | some l ↦ some (x ∷ l) ]

unfoldable pub strip_line_end : Text → Text
strip_line_end raw = elim (strip_suffix 10 raw) [
  | none ↦ raw
  | some l ↦ elim (strip_suffix 13 l) [ none ↦ l | some k ↦ k ]
]

-- `str::starts_with`
abbrev pub starts_with : Text → Text → Bool
starts_with s [] = true
starts_with [] (p ∷ ps) = false
starts_with (c ∷ s) (p ∷ ps) = c == p && starts_with s ps

unfoldable pub concat : List Text → Text
concat [] = []
concat (l ∷ ls) = l ++ concat ls

unfoldable pub count_newlines : Text → ℕ
count_newlines [] = 0
count_newlines (c ∷ cs) = let rest = count_newlines cs in if c == 10 then suc rest else rest

-- Texts without a newline.
abbrev pub IsLine : Text → Type 0
IsLine l = count_newlines l ≡ 0

-- How a text falls into lines with their endings.
pub data Split : Text → List Text → Type 0 where
  nothing : Split [] []
  last : (c : ℕ) (l : Text) → IsLine (c ∷ l) → Split (c ∷ l) ((c ∷ l) ∷ [])
  ended :
      {t : Text} {raws : List Text} (l : Text)
      → IsLine l
      → Split t raws
      → Split (l ++ 10 ∷ t) ((l ++ 10 ∷ []) ∷ raws)

on_first-Split :
    {t : Text} {raws : List Text} (c : ℕ)
    → (c == 10) ≡ false
    → Split t raws
    → Split (c ∷ t) (on_first c raws)
unfolding count_newlines
on_first-Split c h nothing = last c [] (simp h)
on_first-Split c h (last d l p) = last c (d ∷ l) (simp (h, p))
on_first-Split c h (ended l p s) = ended (c ∷ l) (simp (h, p)) s

is_newline : (c : ℕ) → (c ≡ 10) ⊎ ((c == 10) ≡ false)
is_newline c = ground arith

pub split_inclusive-Split : (t : Text) → Split t (split_inclusive t)
unfolding split_inclusive count_newlines
split_inclusive-Split [] = nothing
split_inclusive-Split (c ∷ cs) = elim (is_newline c) [
  | inl e ↦ rw e (ended [] refl (split_inclusive-Split cs))
  | inr h ↦ simp h (on_first-Split c h (split_inclusive-Split cs))
]

-- What comes off the end of a line.
strip_suffix-cases :
    (c : ℕ) (l : Text)
    → (strip_suffix c l ≡ none) ⊎ ((k : Text) × (strip_suffix c l ≡ some k) × (l ≡ k ++ c ∷ []))
unfolding strip_suffix
strip_suffix-cases c [] = inl refl
strip_suffix-cases c (x ∷ []) = ground arith
strip_suffix-cases c (x ∷ y ∷ xs) = elim (strip_suffix-cases c (y ∷ xs)) [
  | inl e ↦ inl (simp e)
  | inr (k, e, f) ↦ inr (x ∷ k, simp e, rw f)
]

strip_suffix-append : (c : ℕ) (l : Text) → strip_suffix c (l ++ c ∷ []) ≡ some l
unfolding strip_suffix
strip_suffix-append c [] = ground arith
strip_suffix-append c (x ∷ []) = ground arith
strip_suffix-append c (x ∷ y ∷ l) = simp (strip_suffix-append c (y ∷ l))

pub count_newlines-append :
    (xs ys : Text) → count_newlines (xs ++ ys) ≡ count_newlines xs + count_newlines ys
unfolding count_newlines
count_newlines-append [] ys = omega arith
count_newlines-append (c ∷ cs) ys = ground (arith, count_newlines-append cs ys)

pub strip_line_end-last : (l : Text) → IsLine l → strip_line_end l ≡ l
unfolding strip_line_end count_newlines
strip_line_end-last l h = elim (strip_suffix-cases 10 l) [
  | inl e ↦ rw (e, strip_line_end)
  | inr (k, e, f) ↦ ground (arith, f, h, count_newlines-append k (10 ∷ []))
]

-- A line with its ending is stripped of LF or of CR and LF.
pub strip_line_end-ended :
    (l : Text)
    → (strip_line_end (l ++ 10 ∷ []) ≡ l)
      ⊎ ((k : Text) × (strip_line_end (l ++ 10 ∷ []) ≡ k) × (l ≡ k ++ 13 ∷ []))
unfolding strip_line_end
strip_line_end-ended l = elim (strip_suffix-cases 13 l) [
  | inl e ↦ inl (rw (strip_line_end, strip_suffix-append 10 l, e))
  | inr (k, e, f) ↦ inr (k, rw (strip_line_end, strip_suffix-append 10 l, e), f)
]

pub Split-nil : {t : Text} → Split t [] → t ≡ []
Split-nil nothing = refl

pub Split-tail :
    {t raw : Text} {raws : List Text}
    → Split t (raw ∷ raws)
    → (t' : Text) × (t ≡ raw ++ t') × Split t' raws
Split-tail (last c l h) = ([], rw (append-nil (c ∷ l)), nothing)
Split-tail (ended {t} l h s) = (t, rw (append_assoc l (10 ∷ []) t), s)
