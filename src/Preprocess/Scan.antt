-- ===== src/Preprocess/Scan.antt =====
-- `needs_preprocessing` of src/parser/preprocess_parser.rs: the scan of the bytes that decides
-- whether a text is tokenized at all.
pub mod Complete
use rust_sqlpackage.Prelude.{
  ℕ, ◌-◌, Bool, true, false, ◌&&◌, ◌||◌, ◌==◌, leb, if◌then◌else◌, List, [], ◌∷◌, length, take,
  drop, drop_while, Text, codes, eq_ignore_ascii_case, not,
}
use rust_sqlpackage.Util.{windows}

abbrev pub binary : Text
binary = codes "BINARY"

abbrev pub default : Text
default = codes "DEFAULT"

-- `window.len() >= 6 && window[..6].eq_ignore_ascii_case(b"BINARY")`
abbrev pub begins_binary : Text → Bool
begins_binary w = leb 6 (length w) && eq_ignore_ascii_case (take 6 w) binary

-- The loop over the windows, with its two flags. Where both are set the source returns `true`, as it
-- does behind the loop when one of them is.
unfoldable pub scan_windows : Bool → Bool → List Text → Bool × Bool
scan_windows has_binary has_default [] = (has_binary, has_default)
scan_windows has_binary has_default (w ∷ ws) =
    let b = if not has_binary && begins_binary w then true else has_binary in
    let d = if eq_ignore_ascii_case w default then true else has_default in
    let rest = scan_windows b d ws in if b && d then (true, true) else rest

abbrev pub is_blank_byte : ℕ → Bool
is_blank_byte c = c == b' ' || c == b'\t' || c == b'\r' || c == b'\n'

abbrev pub closes_next : Text → Bool
closes_next [] = false
closes_next (c ∷ cs) = c == b')'

-- The last loop: a comma, then blanks, then a closing parenthesis.
unfoldable pub has_trailing_comma : Text → Bool
has_trailing_comma [] = false
has_trailing_comma (c ∷ cs) =
    (c == b',' && closes_next (drop_while is_blank_byte cs)) || has_trailing_comma cs

unfoldable pub needs_preprocessing : Text → Bool
unfolding windows scan_windows has_trailing_comma
needs_preprocessing bytes =
    let flags = scan_windows false false (windows 7 bytes) in
    let tail = drop (length bytes - 6) bytes in
    let has_binary = flags.0 || (leb 6 (length bytes) && eq_ignore_ascii_case tail binary) in
    if has_binary || flags.1 then true else has_trailing_comma bytes
