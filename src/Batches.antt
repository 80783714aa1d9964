-- ===== src/Batches.antt =====
-- src/parser/tsql_parser.rs: the script cut into batches at its GO lines. A text is its characters,
-- and a position counts characters.
pub mod Comments
pub mod Lines
pub mod Grouped
pub mod Located
pub mod Joined
use rust_sqlpackage.Prelude.{
  ℕ, zero, suc, ◌+◌, ◌-◌, ◌*◌, ◌^◌, ◌/◌, ◌%◌, ◌≤◌, ◌<◌, min, String, ◌≡◌, refl, sym, ap, ◌∙◌, ◌≢◌,
  ◌↔◌, ◌⊎◌, inl, inr, Bool, true, false, not, ◌&&◌, ◌||◌, Option, none, some, List, [], ◌∷◌, ◌++◌,
  map, append-nil, append_assoc, arith, ltb, leb, ◌==◌, if◌then◌else◌, ltb→lt, lt→ltb, leb→le,
  ==_iff, tests, Bool-cases, Option-cases, length, get_elem?, head?, is_nil, take, drop, take_while,
  drop_while, length-append, take-append-drop, length-take, length-drop, take-take, get_elem?_past,
  take_all, get_elem?-append, drop-append, take-append, take_while-append-drop_while, Text, codes,
  to_ascii_lowercase, to_ascii_uppercase, eq_ignore_ascii_case, is_whitespace, trim_matches, trim,
  ℤ, pos, negsuc, parse_i64, parse_u64, neg_i64,
}
use Lines.{split_inclusive, strip_line_end, starts_with}

pub record Batch : Type 0 where
  pub content : Text
  pub start_line : ℕ

-- What `split_batches` carries from line to line.
pub record SplitState : Type 0 where
  pub batches : List Batch
  pub current_pos : ℕ
  pub batch_start : ℕ
  pub current_line : ℕ
  pub batch_start_line : ℕ
  pub in_block_comment : Bool

-- `content[start..end]`
abbrev pub slice : Text → ℕ → ℕ → Text
slice content start end = take (end - start) (drop start content)

-- `str::lines`
abbrev pub lines : Text → List Text
lines content = map strip_line_end (split_inclusive content)

-- The scan of one line for comment markers, from whether a block comment is open to whether one is
-- open behind it.
unfoldable pub scan_comments : Bool → Text → Bool
scan_comments inside [] = inside
scan_comments inside (a ∷ []) = inside
scan_comments false (a ∷ b ∷ cs) =
    let opened = scan_comments true cs in
    let next = scan_comments false (b ∷ cs) in
    if a == b'/' && b == b'*' then opened else if a == b'-' && b == b'-' then false else next
scan_comments true (a ∷ b ∷ cs) =
    let closed = scan_comments false cs in
    let next = scan_comments true (b ∷ cs) in if a == b'*' && b == b'/' then closed else next

-- The test on a line's text with no white space around it.
abbrev pub is_go : Text → Bool
is_go trimmed =
    eq_ignore_ascii_case trimmed (codes "go") || eq_ignore_ascii_case trimmed (codes "go;")

-- Behind a line and its ending.
unfoldable pub next_pos : Text → ℕ → ℕ
next_pos content line_end =
    if starts_with (drop line_end content) (13 ∷ 10 ∷ [])
    then line_end + 2
    else if starts_with (drop line_end content) (10 ∷ [])
    then line_end + 1
    else line_end

-- One line of the loop.
unfoldable pub split_line : Text → SplitState → Text → SplitState
split_line content s line =
    let next = next_pos content (s.current_pos + length line) in
    let commented = scan_comments s.in_block_comment line in
    let separates = not commented && is_go (trim line) in
    record {
      batches =
          if separates && ltb s.batch_start s.current_pos
          then s.batches
            ++ record {
              content = slice content s.batch_start s.current_pos;
              start_line = s.batch_start_line;
            }
              ∷ []
          else s.batches;
      current_pos = next;
      batch_start = if separates then next else s.batch_start;
      current_line = s.current_line + 1;
      batch_start_line = if separates then s.current_line + 1 else s.batch_start_line;
      in_block_comment = commented;
    }

unfoldable pub split_lines : Text → SplitState → List Text → SplitState
split_lines content s [] = s
split_lines content s (l ∷ ls) = split_lines content (split_line content s l) ls

-- The text behind the last separator.
unfoldable pub add_remaining : Text → SplitState → List Batch
add_remaining content s =
    if ltb s.batch_start (length content)
    then s.batches
      ++ record { content = drop s.batch_start content; start_line = s.batch_start_line } ∷ []
    else s.batches

unfoldable pub split_batches : Text → List Batch
split_batches content = add_remaining content (
    split_lines content
      (record {
        batches = [];
        current_pos = 0;
        batch_start = 0;
        current_line = 1;
        batch_start_line = 1;
        in_block_comment = false;
      })
      (lines content))
