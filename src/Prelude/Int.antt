-- ===== src/Prelude/Int.antt =====
-- `i64` and `u64` as the source uses them: `str::parse` and negation.
use Prim.Native.Nat.{ℕ, zero, suc, ◌+◌, ◌-◌, ◌*◌, ◌^◌}
use mathlib.Core.Bool.{Bool, ◌&&◌}
use mathlib.Core.Option.{Option, none, some}
use mathlib.Core.List.{[], ◌∷◌}
use rust_sqlpackage.Prelude.Tests.{leb, ltb, ◌==◌, if◌then◌else◌}
use rust_sqlpackage.Prelude.Chars.{Text}

-- `negsuc n` is -(n + 1).
pub data ℤ : Type 0 where
  pos : ℕ → ℤ
  negsuc : ℕ → ℤ

abbrev pub u64_mod : ℕ
u64_mod = 2 ^ 64

-- One more than `i64::MAX`, and the size of `i64::MIN`.
abbrev pub i64_half : ℕ
i64_half = 2 ^ 63

abbrev pub is_digit : ℕ → Bool
is_digit c = leb b'0' c && leb c b'9'

-- The digits behind `acc`, none on another character or where the value is not below `bound`.
unfoldable pub parse_digits : ℕ → ℕ → Text → Option ℕ
parse_digits bound acc [] = some acc
parse_digits bound acc (c ∷ cs) =
    let acc' : ℕ = acc * 10 + (c - b'0') in
    let rest = parse_digits bound acc' cs in if is_digit c && ltb acc' bound then rest else none

-- An empty run of digits is an error.
unfoldable pub parse_unsigned : ℕ → Text → Option ℕ
unfolding parse_digits
parse_unsigned bound [] = none
parse_unsigned bound (c ∷ cs) = parse_digits bound 0 (c ∷ cs)

abbrev pub to_neg : ℕ → ℤ
to_neg zero = pos 0
to_neg (suc n) = negsuc n

abbrev map_int : (ℕ → ℤ) → Option ℕ → Option ℤ
map_int f none = none
map_int f (some n) = some (f n)

-- `s.parse::<i64>()`
unfoldable pub parse_i64 : Text → Option ℤ
unfolding parse_unsigned
parse_i64 [] = none
parse_i64 (c ∷ cs) =
    if c == b'-'
    then map_int to_neg (parse_unsigned (i64_half + 1) cs)
    else map_int pos (parse_unsigned i64_half (if c == b'+' then cs else c ∷ cs))

-- `s.parse::<u64>()`
unfoldable pub parse_u64 : Text → Option ℕ
unfolding parse_unsigned
parse_u64 [] = none
parse_u64 (c ∷ cs) = parse_unsigned u64_mod (if c == b'+' then cs else c ∷ cs)

-- `-v` on `i64`: the least value is its own negation, as in a release build.
unfoldable pub neg_i64 : ℤ → ℤ
neg_i64 (pos n) = to_neg n
neg_i64 (negsuc n) = if suc n == i64_half then negsuc n else pos (suc n)
