-- ===== src/Prelude/Chars.antt =====
-- Text as a list of code points, and the parts of Rust's `str` that the source uses.
use Prim.Native.Char.{code}
use Prim.Native.Nat.{ℕ, ◌+◌, ◌-◌}
use Prim.Native.String.{String}
use mathlib.Core.Bool.{Bool, true, false, ◌&&◌, ◌||◌}
use mathlib.Core.List.{List, [], ◌∷◌, reverse}
use rust_sqlpackage.Prelude.Tests.{leb, ◌==◌, if◌then◌else◌}
use rust_sqlpackage.Prelude.Lists.{drop_while}

abbrev pub Text : Type 0
Text = List ℕ

-- The code points of a literal.
abbrev pub codes : String → Text
codes String.[] = []
codes (String.◌∷◌ c s) = code c ∷ codes s

-- `u8::to_ascii_lowercase` and `u8::to_ascii_uppercase`
abbrev pub to_ascii_lowercase : ℕ → ℕ
to_ascii_lowercase c = if leb b'A' c && leb c b'Z' then c + 32 else c

abbrev pub to_ascii_uppercase : ℕ → ℕ
to_ascii_uppercase c = if leb b'a' c && leb c b'z' then c - 32 else c

-- `str::eq_ignore_ascii_case`
unfoldable pub eq_ignore_ascii_case : Text → Text → Bool
eq_ignore_ascii_case [] [] = true
eq_ignore_ascii_case (a ∷ as') (b ∷ bs) =
    to_ascii_lowercase a == to_ascii_lowercase b && eq_ignore_ascii_case as' bs
eq_ignore_ascii_case _ _ = false

-- `char::is_whitespace`: the code points with Unicode's White_Space property
abbrev pub is_whitespace : ℕ → Bool
is_whitespace c =
    (leb 9 c && leb c 13)
    || c == 32
    || c == 0x85
    || c == 0xa0
    || c == 0x1680
    || (leb 0x2000 c && leb c 0x200a)
    || c == 0x2028
    || c == 0x2029
    || c == 0x202f
    || c == 0x205f
    || c == 0x3000

-- `str::trim_matches` by a test on characters
unfoldable pub trim_matches : (ℕ → Bool) → Text → Text
trim_matches p s = reverse (drop_while p (reverse (drop_while p s)))

-- `str::trim`
abbrev pub trim : Text → Text
trim = trim_matches is_whitespace
