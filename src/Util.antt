-- ===== src/Util.antt =====
-- src/util.rs: searches without regard to ASCII case, over the bytes of a text.
pub mod Find
use rust_sqlpackage.Prelude.{
  ℕ, suc, Bool, false, ◌&&◌, ◌||◌, leb, ltb, if◌then◌else◌, Option, none, some, List, [], ◌∷◌,
  length, take, eq_ignore_ascii_case, Text,
}

-- `slice::windows`, for a width that is not zero
unfoldable pub windows {ℓ} : {A : Type ℓ} → ℕ → List A → List (List A)
windows n [] = []
windows n (x ∷ xs) = if leb n (length (x ∷ xs)) then take n (x ∷ xs) ∷ windows n xs else []

-- `Iterator::any` and `Iterator::position`
unfoldable pub any {ℓ} : {A : Type ℓ} → (A → Bool) → List A → Bool
any p [] = false
any p (x ∷ xs) = p x || any p xs

unfoldable pub position {ℓ} : {A : Type ℓ} → (A → Bool) → List A → Option ℕ
position p [] = none
position p (x ∷ xs) =
    let later : Option ℕ = elim (position p xs) [ none ↦ none | some i ↦ some (suc i) ] in
    if p x then some 0 else later

unfoldable pub contains_ci : Text → Text → Bool
unfolding windows any
contains_ci haystack needle =
    if ltb (length haystack) (length needle)
    then false
    else any (λ w. eq_ignore_ascii_case w needle) (windows (length needle) haystack)

unfoldable pub starts_with_ci : Text → Text → Bool
starts_with_ci haystack needle =
    leb (length needle) (length haystack)
    && eq_ignore_ascii_case (take (length needle) haystack) needle

unfoldable pub find_ci : Text → Text → Option ℕ
unfolding windows position
find_ci haystack needle =
    if ltb (length haystack) (length needle)
    then none
    else position (λ w. eq_ignore_ascii_case w needle) (windows (length needle) haystack)
