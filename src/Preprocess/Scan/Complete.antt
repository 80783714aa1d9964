-- ===== src/Preprocess/Scan/Complete.antt =====
-- The scan for `BINARY` and `DEFAULT` in one pass, against two searches.
use rust_sqlpackage.Prelude.{
  ℕ, suc, ◌-◌, ◌<◌, ◌≡◌, refl, inl, inr, Bool, true, false, not, ◌&&◌, ◌||◌, List, [], ◌∷◌, arith,
  ltb, leb, if◌then◌else◌, ltb→lt, Bool-cases, length, take, drop, length-take, take-take, take_all,
  Text, eq_ignore_ascii_case,
}
use native.Mathlib.Decide.{dec_lt}
use rust_sqlpackage.Util.{windows, any, contains_ci}
use rust_sqlpackage.Preprocess.Scan.{
  binary, default, begins_binary, scan_windows, has_trailing_comma, needs_preprocessing,
}

abbrev is_binary : Text → Bool
is_binary w = eq_ignore_ascii_case w binary

abbrev is_default : Text → Bool
is_default w = eq_ignore_ascii_case w default

-- Whether some flag is set in the end.
scan_windows-any :
    (b d : Bool) (ws : List Text)
    → (let r = scan_windows b d ws in r.0 || r.1)
      ≡ (b || any begins_binary ws) || (d || any is_default ws)
unfolding scan_windows any
scan_windows-any b d [] = ground arith
scan_windows-any b d (w ∷ ws) =
    let b' = if not b && begins_binary w then true else b in
    let d' = if is_default w then true else d in ground (arith, scan_windows-any b' d' ws)

windows_short {ℓ} : {A : Type ℓ} (n : ℕ) (xs : List A) → length xs < n → windows n xs ≡ []
unfolding windows
windows_short n [] h = refl
windows_short n (x ∷ xs) h = ground arith

-- The windows of seven bytes begin with all windows of six but the last.
any-begins_binary :
    (bs : Text)
    → any is_binary (windows 6 bs)
      ≡ any begins_binary (windows 7 bs)
        || (leb 6 (length bs) && is_binary (drop (length bs - 6) bs))
unfolding windows any
any-begins_binary [] = refl
any-begins_binary (x ∷ xs) = elim (dec_lt (length xs) 5) [
  | yes short ↦ ground arith
  | no long ↦ elim (dec_lt (length xs) 6) [
    | yes six ↦
        let whole : drop (suc (length xs) - 6) (x ∷ xs) ≡ x ∷ xs =
          let e : suc (length xs) - 6 ≡ 0 = omega arith in rw e in
        ground (arith, windows_short 6 xs six, take_all 5 xs, whole)
    | no more ↦
        let last : drop (suc (length xs) - 6) (x ∷ xs) ≡ drop (length xs - 6) xs =
          let e : suc (length xs) - 6 ≡ suc (length xs - 6) = omega arith in rw e in
        let front : take 6 (x ∷ take 6 xs) ≡ x ∷ take 5 xs = take-take 6 7 (x ∷ xs) (omega arith) in
        ground (arith, any-begins_binary xs, last, front, length-take 6 xs)
  ]
]

contains_ci-any :
    (h needle : Text)
    → contains_ci h needle ≡ any (λ w. eq_ignore_ascii_case w needle) (windows (length needle) h)
unfolding contains_ci
contains_ci-any h needle = elim (Bool-cases (ltb (length h) (length needle))) [
  | inl short ↦
      rw (short, windows_short (length needle) h (ltb→lt (length h) (length needle) short))
        (unfold any in refl)
  | inr long ↦ rw long
]

-- The scan answers yes exactly where the bytes hold `BINARY` or `DEFAULT` without regard to ASCII
-- case, or a comma with nothing but blanks between it and a closing parenthesis.
pub needs_preprocessing-contains_ci :
    (bytes : Text)
    → needs_preprocessing bytes
      ≡ contains_ci bytes binary || contains_ci bytes default || has_trailing_comma bytes
unfolding needs_preprocessing
needs_preprocessing-contains_ci bytes = ground (
  arith,
  scan_windows-any false false (windows 7 bytes),
  any-begins_binary bytes,
  contains_ci-any bytes binary,
  contains_ci-any bytes default,
)
