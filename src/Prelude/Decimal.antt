-- ===== src/Prelude/Decimal.antt =====
-- Numbers in decimal digits, and `str::parse` at them.
use Prim.Native.Nat.{ℕ, ◌+◌, ◌-◌, ◌*◌, ◌^◌, ◌≤◌, ◌<◌}
use native.Mathlib.Omega.{arith}
use mathlib.Core.Path.{◌≡◌, refl}
use mathlib.Core.Bool.{true, false}
use mathlib.Core.Option.{some}
use mathlib.Core.List.{[], ◌∷◌}
use rust_sqlpackage.Prelude.Tests.{ltb, ◌==◌}
use rust_sqlpackage.Prelude.Lists.{is_nil}
use rust_sqlpackage.Prelude.Chars.{Text}
use rust_sqlpackage.Prelude.Int.{pos, is_digit, parse_digits, parse_unsigned, parse_i64}

abbrev pub AreDigits : Text → Type 0
AreDigits [] = Unit
AreDigits (c ∷ cs) = (48 ≤ c) × (c ≤ 57) × AreDigits cs

-- The number that digits behind `n` write.
unfoldable pub decimal : ℕ → Text → ℕ
decimal n [] = n
decimal n (c ∷ cs) = decimal (n * 10 + (c - 48)) cs

grows : (n : ℕ) (cs : Text) → n ≤ decimal n cs
unfolding decimal
grows n [] = omega arith
grows n (c ∷ cs) = omega (arith, grows (n * 10 + (c - 48)) cs)

is_digit_lem : (c : ℕ) → 48 ≤ c → c ≤ 57 → is_digit c ≡ true
is_digit_lem c l u = ground arith

below : (m n : ℕ) → m < n → ltb m n ≡ true
below m n h = ground arith

parse_digits-decimal :
    (bound n : ℕ) (cs : Text)
    → AreDigits cs
    → decimal n cs < bound
    → parse_digits bound n cs ≡ some (decimal n cs)
unfolding parse_digits decimal
parse_digits-decimal bound n [] d k = refl
parse_digits-decimal bound n (c ∷ cs) (l, u, d) k =
    let m = n * 10 + (c - 48) in
    let small : m < bound = omega (arith, k, grows m cs) in
    rw (is_digit_lem c l u, below m bound small) (parse_digits-decimal bound m cs d k)

other : (c d : ℕ) → d < c → (c == d) ≡ false
other c d h = ground arith

pub parse_i64-digits :
    (cs : Text) (n : ℕ)
    → AreDigits cs
    → is_nil cs ≡ false
    → decimal 0 cs ≡ n
    → n < 2 ^ 63
    → parse_i64 cs ≡ some (pos n)
unfolding parse_i64 parse_unsigned
parse_i64-digits [] n d e v k = cc
parse_i64-digits (c ∷ cs) n (l, u, d) e v k =
    rw (other c 45 (omega (arith, l)), other c 43 (omega (arith, l)))
      (rw (parse_digits-decimal (2 ^ 63) 0 (c ∷ cs) (l, u, d) (omega (arith, v, k))) (rw v))
