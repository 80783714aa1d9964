-- ===== src/Identifier.antt =====
-- src/parser/identifier_utils.rs: names with and without brackets. `Identifier/Format` has the
-- printing of tokens, `Identifier/Qualified` the names of two parts.
pub mod Format
pub mod Qualified
use mathlib.Core.List.{reverse}
use rust_sqlpackage.Prelude.{
  Bool, ◌&&◌, ◌||◌, ◌==◌, if◌then◌else◌, ℕ, List, [], ◌∷◌, ◌++◌, Text, codes, trim_matches,
  is_whitespace, trim, head?,
}

abbrev pub is_quote : ℕ → Bool
is_quote c = c == b'[' || c == b']' || c == b'"'

-- `s.trim().trim_matches(|c| c == '[' || c == ']' || c == '"')`
unfoldable pub normalize_identifier : Text → Text
unfolding trim_matches
normalize_identifier ident = trim_matches is_quote (trim ident)

-- `s.starts_with(c)` and `s.ends_with(c)`
abbrev pub starts_with_char : ℕ → Text → Bool
starts_with_char c [] = Bool.false
starts_with_char c (x ∷ xs) = x == c

abbrev pub ends_with_char : ℕ → Text → Bool
ends_with_char c s = starts_with_char c (reverse s)

unfoldable pub is_bracketed : Text → Bool
unfolding trim_matches
is_bracketed ident =
    let trimmed = trim ident in starts_with_char b'[' trimmed && ends_with_char b']' trimmed

unfoldable pub is_double_quoted : Text → Bool
unfolding trim_matches
is_double_quoted ident =
    let trimmed = trim ident in starts_with_char b'"' trimmed && ends_with_char b'"' trimmed

unfoldable pub ensure_bracketed : Text → Text
unfolding normalize_identifier
ensure_bracketed ident =
    let trimmed = trim ident in
    if starts_with_char b'[' trimmed && ends_with_char b']' trimmed
    then trimmed
    else b'[' ∷ (normalize_identifier trimmed ++ b']' ∷ [])
