-- ===== src/Batches/Joined.antt =====
-- Scripts written from batches, a separator behind each, and cut into these batches again.
use rust_sqlpackage.Prelude.{
  ℕ, suc, ◌+◌, ◌≡◌, refl, ◌∙◌, inl, inr, Bool, true, false, List, [], ◌∷◌, ◌++◌, append-nil,
  append_assoc, arith, ◌==◌, Bool-cases, length, is_nil, Text,
}
use rust_sqlpackage.Batches.{Batch, scan_comments, split_batches}
use rust_sqlpackage.Batches.Lines.{split_inclusive, strip_line_end, count_newlines, IsLine}
use rust_sqlpackage.Batches.Grouped.{group, emit, separates, split_batches-group}

abbrev pub with_newline : Text → Text
with_newline l = l ++ 10 ∷ []

-- A batch's lines, and the line that ends it.
pub record Part : Type 0 where
  pub body : List Text
  pub separator : Text

unfoldable pub body_text : List Text → Text
body_text [] = []
body_text (l ∷ ls) = l ++ 10 ∷ body_text ls

unfoldable pub script : List Part → Text
script [] = []
script (p ∷ ps) = body_text p.body ++ (p.separator ++ 10 ∷ script ps)

-- The batches of a script that begins at a line.
unfoldable pub batches_from : ℕ → List Part → List Batch
batches_from n [] = []
batches_from n (p ∷ ps) =
    record { content = body_text p.body; start_line = n } ∷ batches_from (n + length p.body + 1) ps

-- Lines none of which ends the batch, and that leave no comment open.
abbrev pub IsBody : Bool → List Text → Type 0
IsBody inside [] = inside ≡ false
IsBody inside (l ∷ ls) =
    IsLine l
    × (separates inside (with_newline l) ≡ false)
    × IsBody (scan_comments inside (strip_line_end (with_newline l))) ls

abbrev pub IsPart : Part → Type 0
IsPart p =
    (is_nil p.body ≡ false)
    × IsBody false p.body
    × IsLine p.separator
    × (separates false (with_newline p.separator) ≡ true)

abbrev pub AreParts : List Part → Type 0
AreParts [] = Unit
AreParts (p ∷ ps) = IsPart p × AreParts ps

split_inclusive-line :
    (l t : Text) → IsLine l → split_inclusive (l ++ 10 ∷ t) ≡ with_newline l ∷ split_inclusive t
unfolding split_inclusive count_newlines
split_inclusive-line [] t h = refl
split_inclusive-line (c ∷ l) t h = elim (Bool-cases (c == 10)) [
  | inl e ↦ ground (arith, h, e)
  | inr e ↦ simp (e, split_inclusive-line l t (simp e at h))
]

plus_zero : (n : ℕ) → n + 0 ≡ n
plus_zero n = omega arith

plus_suc : (n m : ℕ) → n + suc m ≡ n + 1 + m
plus_suc n m = omega arith

line_seam : (acc l t : Text) → acc ++ with_newline l ++ t ≡ acc ++ (l ++ 10 ∷ t)
line_seam acc l t = rw (append_assoc acc (with_newline l) t, append_assoc l (10 ∷ []) t)

-- The lines of a body only add to the batch.
group-body :
    (inside : Bool) (n : ℕ) (acc : Text) (at : ℕ) (ls : List Text) (t : Text)
    → IsBody inside ls
    → group inside n acc at (split_inclusive (body_text ls ++ t))
      ≡ group false (n + length ls) (acc ++ body_text ls) at (split_inclusive t)
unfolding body_text group
group-body inside n acc at [] t h = rw (h, append-nil acc, plus_zero n)
group-body inside n acc at (l ∷ ls) t (line, none_here, body) =
    let rest =
      group-body (scan_comments inside (strip_line_end (with_newline l))) (n + 1)
        (acc ++ with_newline l) at ls t body in
    rw
      (
        append_assoc l (10 ∷ body_text ls) t,
        split_inclusive-line l (body_text ls ++ t) line,
        none_here,
        plus_suc n (length ls),
        ← line_seam acc l (body_text ls),
      )
      rest

emit-body :
    (ls : List Text) (at : ℕ)
    → is_nil ls ≡ false
    → emit (body_text ls) at ≡ record { content = body_text ls; start_line = at } ∷ []
unfolding body_text
emit-body [] at h = ground (arith, h)
emit-body ([] ∷ ls) at h = refl
emit-body ((c ∷ l) ∷ ls) at h = refl

no_comment :
    (p : Part)
    → separates false (with_newline p.separator) ≡ true
    → scan_comments false (strip_line_end (with_newline p.separator)) ≡ false
no_comment p h = ground (arith, h)

group-script :
    (n : ℕ) (ps : List Part)
    → AreParts ps
    → group false n [] n (split_inclusive (script ps)) ≡ batches_from n ps
unfolding script batches_from group split_inclusive
group-script n [] h = refl
group-script n (p ∷ ps) ((some_line, body, line, ends), h) = rw (
  group-body false n [] n p.body (p.separator ++ 10 ∷ script ps) body,
  split_inclusive-line p.separator (script ps) line,
  ends,
  no_comment p ends,
  emit-body p.body n some_line,
  group-script (n + length p.body + 1) ps h,
)

-- A script written from batches, each of one or more lines that end with a newline, none of which
-- separates, with no comment left open, and each with a separator behind it, is cut into exactly these
-- batches, each with the number of its first line.
pub split_batches-script :
    (ps : List Part) → AreParts ps → split_batches (script ps) ≡ batches_from 1 ps
split_batches-script ps h = split_batches-group (script ps) ∙ group-script 1 ps h
