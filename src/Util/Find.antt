-- ===== src/Util/Find.antt =====
-- `find_ci` against `starts_with_ci`.
use rust_sqlpackage.Prelude.{
  ℕ, zero, suc, ◌<◌, ◌≡◌, refl, inl, inr, Bool, true, false, ◌&&◌, Option, none, some, [], ◌∷◌,
  arith, ltb, leb, ltb→lt, Bool-cases, Option-cases, length, take, drop, length-drop, Text,
  eq_ignore_ascii_case,
}
use rust_sqlpackage.Util.{windows, position, starts_with_ci, find_ci}

-- Whether the window of `k` characters at `i` is there and passes.
abbrev at_window : (Text → Bool) → ℕ → Text → ℕ → Bool
at_window p k h i = leb k (length (drop i h)) && p (take k (drop i h))

position-windows :
    (p : Text → Bool) (k : ℕ) (h : Text) (i : ℕ)
    → position p (windows k h) ≡ some i
    → at_window p k h i ≡ true
unfolding position windows
position-windows p k [] i e = cc
position-windows p k (x ∷ xs) zero e = elim (Option-cases (position p (windows k xs))) [
  | inl n ↦ ground (arith, n)
  | inr (j, n) ↦ ground (arith, n)
]
position-windows p k (x ∷ xs) (suc i) e = elim (Option-cases (position p (windows k xs))) [
  | inl n ↦ ground (arith, n)
  | inr (j, n) ↦ ground (arith, n, position-windows p k xs j n)
]

position-windows_first :
    (p : Text → Bool) (k : ℕ) (h : Text) (i j : ℕ)
    → position p (windows k h) ≡ some i
    → j < i
    → at_window p k h j ≡ false
unfolding position windows
position-windows_first p k [] i j e l = cc
position-windows_first p k (x ∷ xs) zero j e l = elim l [ ]
position-windows_first p k (x ∷ xs) (suc i) zero e l =
    elim (Option-cases (position p (windows k xs))) [
      | inl n ↦ ground (arith, n)
      | inr (m, n) ↦ ground (arith, n)
    ]
position-windows_first p k (x ∷ xs) (suc i) (suc j) e l =
    elim (Option-cases (position p (windows k xs))) [
      | inl n ↦ ground (arith, n)
      | inr (m, n) ↦ ground (arith, n, position-windows_first p k xs m j n)
    ]

position-windows-none :
    (p : Text → Bool) (k : ℕ) (h : Text) (j : ℕ)
    → 0 < k
    → position p (windows k h) ≡ none
    → at_window p k h j ≡ false
unfolding position windows
position-windows-none p k [] zero l e = ground arith
position-windows-none p k [] (suc j) l e = ground arith
position-windows-none p k (x ∷ xs) zero l e = elim (Option-cases (position p (windows k xs))) [
  | inl n ↦ ground (arith, n)
  | inr (m, n) ↦ ground (arith, n)
]
position-windows-none p k (x ∷ xs) (suc j) l e = elim (Option-cases (position p (windows k xs))) [
  | inl n ↦ ground (arith, n, position-windows-none p k xs j l n)
  | inr (m, n) ↦ ground (arith, n, length-drop j xs)
]

-- What a search returned: the first place where the needle stands, or none where it stands nowhere.
abbrev pub FoundAt : Text → Text → Option ℕ → Type 0
FoundAt haystack needle none = (j : ℕ) → starts_with_ci (drop j haystack) needle ≡ false
FoundAt haystack needle (some i) =
    (starts_with_ci (drop i haystack) needle ≡ true)
    × ((j : ℕ) → j < i → starts_with_ci (drop j haystack) needle ≡ false)

found_in_windows :
    (h n : Text)
    → 0 < length n
    → (r : Option ℕ) → position (λ w. eq_ignore_ascii_case w n) (windows (length n) h) ≡ r
    → FoundAt h n r
unfolding starts_with_ci
found_in_windows h n l none e =
    λ j. position-windows-none (λ w. eq_ignore_ascii_case w n) (length n) h j l e
found_in_windows h n l (some i) e = (
  position-windows (λ w. eq_ignore_ascii_case w n) (length n) h i e,
  λ j k. position-windows_first (λ w. eq_ignore_ascii_case w n) (length n) h i j e k,
)

too_long : (h n : Text) (j : ℕ) → length h < length n → starts_with_ci (drop j h) n ≡ false
unfolding starts_with_ci
too_long h n j l = ground (arith, length-drop j h)

-- For a needle that is not empty, `find_ci` returns the first offset at which the haystack goes on
-- with the needle without regard to ASCII case, and `None` exactly where there is no such offset.
pub find_ci-FoundAt :
    (haystack needle : Text) → 0 < length needle → FoundAt haystack needle (find_ci haystack needle)
unfolding find_ci
find_ci-FoundAt h n l = elim (Bool-cases (ltb (length h) (length n))) [
  | inl short ↦ rw short (λ j. too_long h n j (ltb→lt (length h) (length n) short))
  | inr long ↦ rw long (found_in_windows h n l _ refl)
]
