-- ===== src/Batches/Grouped.antt =====
-- The batches of a script by its lines alone: what the positions of `split_batches` stand for.
use rust_sqlpackage.Prelude.{
  ℕ, ◌+◌, ◌-◌, ◌≡◌, refl, ◌∙◌, inl, inr, Bool, false, not, ◌&&◌, List, [], ◌∷◌, ◌++◌, map,
  append-nil, append_assoc, arith, ltb, if◌then◌else◌, Bool-cases, length, is_nil, length-append,
  drop-append, take-append, Text, trim,
}
use rust_sqlpackage.Batches.{
  Batch, SplitState, slice, scan_comments, is_go, next_pos, split_line, split_lines, add_remaining,
  split_batches,
}
use rust_sqlpackage.Batches.Lines.{
  split_inclusive, strip_line_end, starts_with, Split, last, ended, split_inclusive-Split,
  Split-nil, Split-tail, strip_line_end-last, strip_line_end-ended,
}

-- No batch is empty.
abbrev pub emit : Text → ℕ → List Batch
emit [] at = []
emit (c ∷ cs) at = record { content = c ∷ cs; start_line = at } ∷ []

-- A line that ends a batch, behind a scan that leaves it outside comments.
abbrev pub separates : Bool → Text → Bool
separates inside raw =
    not (scan_comments inside (strip_line_end raw)) && is_go (trim (strip_line_end raw))

-- Whether a comment is open, the number of the line, the batch so far and the line where it began.
unfoldable pub group : Bool → ℕ → Text → ℕ → List Text → List Batch
group inside n acc at [] = emit acc at
group inside n acc at (raw ∷ raws) =
    let commented = scan_comments inside (strip_line_end raw) in
    let cut = group commented (n + 1) [] (n + 1) raws in
    let kept = group commented (n + 1) (acc ++ raw) at raws in
    if separates inside raw then emit acc at ++ cut else kept

-- What stands at a seam decides how far the next line begins behind it.
next_pos-seam :
    (xs rest : Text)
    → next_pos (xs ++ rest) (length xs) ≡ (
        if starts_with rest (13 ∷ 10 ∷ [])
        then length xs + 2
        else if starts_with rest (10 ∷ [])
        then length xs + 1
        else length xs)
unfolding next_pos
next_pos-seam xs rest = rw (drop-append xs rest)

next_pos-at :
    (before l rest : Text)
    → next_pos (before ++ (l ++ rest)) (length before + length l) ≡ (
        if starts_with rest (13 ∷ 10 ∷ [])
        then length (before ++ l) + 2
        else if starts_with rest (10 ∷ [])
        then length (before ++ l) + 1
        else length (before ++ l))
next_pos-at before l rest =
    rw (← append_assoc before l rest, ← length-append before l) (next_pos-seam (before ++ l) rest)

-- Behind a line of the script stands the next, whatever ended the line.
next_pos-raw :
    {t raw : Text} {raws : List Text} (before : Text)
    → Split t (raw ∷ raws)
    → next_pos (before ++ t) (length before + length (strip_line_end raw)) ≡ length (before ++ raw)
next_pos-raw before (last c l h) =
    rw (strip_line_end-last (c ∷ l) h) (simp append-nil at (next_pos-at before (c ∷ l) []))
next_pos-raw before (ended {t} l h s) = elim (strip_line_end-ended l) [
  | inl e ↦ rw e (
      next_pos-at before l (10 ∷ t)
      ∙ omega (
        arith,
        length-append before l,
        length-append before (l ++ 10 ∷ []),
        length-append l (10 ∷ []),
      ))
  | inr (k, e, f) ↦
      rw (e, f, append_assoc k (13 ∷ []) (10 ∷ t))
        (next_pos-at before k (13 ∷ 10 ∷ t)
          ∙ omega (
            arith,
            length-append before k,
            length-append before (k ++ 13 ∷ [] ++ 10 ∷ []),
            length-append (k ++ 13 ∷ []) (10 ∷ []),
            length-append k (13 ∷ []),
          ))
]

state : List Batch → ℕ → ℕ → ℕ → ℕ → Bool → SplitState
state bs current start n at inside = record {
  batches = bs;
  current_pos = current;
  batch_start = start;
  current_line = n;
  batch_start_line = at;
  in_block_comment = inside;
}

-- The tests on positions ask whether the batch so far is empty, and the slice is that batch.
start-lt : (done acc : Text) → ltb (length done) (length (done ++ acc)) ≡ not (is_nil acc)
start-lt done [] = ground (arith, length-append done [])
start-lt done (c ∷ cs) = ground (arith, length-append done (c ∷ cs))

sub_start : (m n : ℕ) → m + n - m ≡ n
sub_start m n = omega arith

slice-seam :
    (done acc t : Text) → slice (done ++ acc ++ t) (length done) (length (done ++ acc)) ≡ acc
slice-seam done acc t =
    rw
      (
        append_assoc done acc t,
        length-append done acc,
        sub_start (length done) (length acc),
        drop-append done (acc ++ t),
        take-append acc t,
      )
      refl

cut_at :
    (done acc t : Text) (bs : List Batch) (at : ℕ)
    → (if ltb (length done) (length (done ++ acc))
        then bs
          ++ record {
            content = slice (done ++ acc ++ t) (length done) (length (done ++ acc));
            start_line = at;
          }
            ∷ []
        else bs)
      ≡ bs ++ emit acc at
cut_at done [] t bs at = rw (start-lt done [], append-nil bs)
cut_at done (c ∷ cs) t bs at = rw (start-lt done (c ∷ cs), slice-seam done (c ∷ cs) t)

rest_at :
    (done acc : Text) (bs : List Batch) (current n at : ℕ) (inside : Bool)
    → add_remaining (done ++ acc) (state bs current (length done) n at inside) ≡ bs ++ emit acc at
unfolding add_remaining state
rest_at done [] bs current n at inside = rw (start-lt done [], append-nil bs)
rest_at done (c ∷ cs) bs current n at inside =
    rw (start-lt done (c ∷ cs), drop-append done (c ∷ cs))

split_line-raw :
    {t raw : Text} {raws : List Text} (done acc : Text) (bs : List Batch) (n at : ℕ) (inside : Bool)
    → Split t (raw ∷ raws)
    → split_line
        (done ++ acc ++ t)
        (state bs (length (done ++ acc)) (length done) n at inside)
        (strip_line_end raw)
      ≡ (if separates inside raw
          then state
              (bs ++ emit acc at)
              (length (done ++ acc ++ raw))
              (length (done ++ acc ++ raw))
              (n + 1)
              (n + 1)
              (scan_comments inside (strip_line_end raw))
          else state bs
              (length (done ++ acc ++ raw))
              (length done)
              (n + 1)
              at
              (scan_comments inside (strip_line_end raw)))
unfolding split_line state
split_line-raw {t} {raw} done acc bs n at inside s = elim (Bool-cases (separates inside raw)) [
  | inl e ↦ simp (e, next_pos-raw (done ++ acc) s, cut_at done acc t bs at)
  | inr e ↦ simp (e, next_pos-raw (done ++ acc) s)
]

split_lines-group :
    (content : Text) (raws : List Text) {t : Text} (done acc : Text) (bs : List Batch) (n at : ℕ)
    (inside : Bool)
    → Split t raws
    → content ≡ done ++ acc ++ t
    → add_remaining content (
        split_lines content
          (state bs (length (done ++ acc)) (length done) n at inside)
          (map strip_line_end raws))
      ≡ bs ++ group inside n acc at raws
unfolding split_lines group
split_lines-group content [] {t} done acc bs n at inside s e =
    let end : content ≡ done ++ acc = rw (e, Split-nil s, append-nil (done ++ acc)) in
    rw end (rest_at done acc bs (length (done ++ acc)) n at inside)
split_lines-group content (raw ∷ raws) {t} done acc bs n at inside s e =
    let (t', f, s') = Split-tail s in
    let commented = scan_comments inside (strip_line_end raw) in
    let one : split_line content (state bs (length (done ++ acc)) (length done) n at inside)
          (strip_line_end raw)
        ≡ (if separates inside raw
            then state (bs ++ emit acc at) (length (done ++ acc ++ raw))
                (length (done ++ acc ++ raw)) (n + 1) (n + 1) commented
            else state bs (length (done ++ acc ++ raw)) (length done) (n + 1) at commented) =
      rw e (split_line-raw done acc bs n at inside s) in
    let seam : content ≡ done ++ acc ++ raw ++ t' =
      rw (e, f, ← append_assoc (done ++ acc) raw t') refl in
    elim (Bool-cases (separates inside raw)) [
      | inl h ↦
          rw (split_lines, one, h)
            (simp (append-nil, append_assoc bs) at
              (split_lines-group content raws (done ++ acc ++ raw) [] (bs ++ emit acc at) (n + 1)
                (n + 1) commented s' (rw (append-nil (done ++ acc ++ raw)) seam)))
      | inr h ↦
          rw (split_lines, one, h)
            (simp (← append_assoc done acc raw) at (
              split_lines-group content raws done (acc ++ raw) bs (n + 1) at commented s'
                (rw (← append_assoc done acc raw) seam)))
    ]

-- The batches that split_batches cuts out by positions are those of the script's lines read one after
-- the other: lines, with their endings, collect in a batch up to a separator outside comments.
pub split_batches-group :
    (content : Text) → split_batches content ≡ group false 1 [] 1 (split_inclusive content)
unfolding split_batches state
split_batches-group content =
    split_lines-group content (split_inclusive content) [] [] [] 1 1 false
      (split_inclusive-Split content) refl
