-- ===== src/Batches/Located.antt =====
-- Where the batches stand in their script: the lines before a batch, and its number.
use rust_sqlpackage.Prelude.{
  ℕ, ◌+◌, ◌≡◌, refl, inl, inr, Bool, false, List, [], ◌∷◌, ◌++◌, append-nil, append_assoc, arith,
  Bool-cases, Text,
}
use rust_sqlpackage.Batches.{Batch, scan_comments, split_batches}
use rust_sqlpackage.Batches.Lines.{
  strip_line_end, count_newlines, count_newlines-append, Split, nothing, last, ended, IsLine,
  split_inclusive-Split,
}
use rust_sqlpackage.Batches.Grouped.{group, emit, separates, split_batches-group}

-- The batch is a part of the script, and its number counts the lines that end before it.
abbrev pub Located : Text → Batch → Type 0
Located content b =
    (before : Text) × (after : Text) × (content ≡ before ++ b.content ++ after)
    × (b.start_line ≡ count_newlines before + 1)

abbrev pub AllLocated : Text → List Batch → Type 0
AllLocated content [] = Unit
AllLocated content (b ∷ bs) = Located content b × AllLocated content bs

AllLocated-append :
    (content : Text) (bs cs : List Batch)
    → AllLocated content bs
    → AllLocated content cs
    → AllLocated content (bs ++ cs)
AllLocated-append content [] cs h g = g
AllLocated-append content (b ∷ bs) cs (l, h) g = (l, AllLocated-append content bs cs h g)

emit-Located :
    (content done acc after : Text) (at : ℕ)
    → content ≡ done ++ acc ++ after
    → at ≡ count_newlines done + 1
    → AllLocated content (emit acc at)
emit-Located content done [] after at e f = tt
emit-Located content done (c ∷ cs) after at e f = ((done, after, e, f), tt)

count_newlines-ended :
    (xs l : Text) → IsLine l → count_newlines (xs ++ (l ++ 10 ∷ [])) ≡ count_newlines xs + 1
unfolding count_newlines
count_newlines-ended xs l h =
    ground (arith, h, count_newlines-append xs (l ++ 10 ∷ []), count_newlines-append l (10 ∷ []))

group-Located :
    (content : Text) {t : Text} {raws : List Text} (inside : Bool) (done acc : Text) (n at : ℕ)
    → Split t raws
    → content ≡ done ++ acc ++ t
    → n ≡ count_newlines (done ++ acc) + 1
    → at ≡ count_newlines done + 1
    → AllLocated content (group inside n acc at raws)
unfolding group
group-Located content inside done acc n at nothing e f g = emit-Located content done acc [] at e g
group-Located content inside done acc n at (last c l h) e f g =
    elim (Bool-cases (separates inside (c ∷ l))) [
      | inl k ↦ rw k (
          AllLocated-append content (emit acc at) [] (emit-Located content done acc (c ∷ l) at e g)
            tt)
      | inr k ↦ rw k (
          emit-Located content done (acc ++ c ∷ l) [] at
            (rw (append-nil (done ++ (acc ++ c ∷ l)), ← append_assoc done acc (c ∷ l)) e) g)
    ]
group-Located content inside done acc n at (ended {t} {raws} l h s) e f g =
    let raw = l ++ 10 ∷ [] in
    let commented = scan_comments inside (strip_line_end raw) in
    let seam : content ≡ done ++ acc ++ raw ++ t =
      rw (append_assoc (done ++ acc) raw t, append_assoc l (10 ∷ []) t) e in
    let next : n + 1 ≡ count_newlines (done ++ acc ++ raw) + 1 =
      omega (arith, f, count_newlines-ended (done ++ acc) l h) in
    elim (Bool-cases (separates inside raw)) [
      | inl k ↦ rw k (
          AllLocated-append content (emit acc at) (group commented (n + 1) [] (n + 1) raws)
            (emit-Located content done acc (l ++ 10 ∷ t) at e g)
            (group-Located content commented (done ++ acc ++ raw) [] (n + 1) (n + 1) s
              (rw (append-nil (done ++ acc ++ raw)) seam)
              (rw (append-nil (done ++ acc ++ raw)) next) next))
      | inr k ↦ rw k (
          group-Located content commented done (acc ++ raw) (n + 1) at s
            (rw (← append_assoc done acc raw) seam) (rw (← append_assoc done acc raw) next) g)
    ]

-- Every batch is a part of its script, and its line number is one more than the number of newlines
-- before it.
pub split_batches-Located : (content : Text) → AllLocated content (split_batches content)
unfolding count_newlines
split_batches-Located content =
    rw (split_batches-group content)
      (group-Located content false [] [] 1 1 (split_inclusive-Split content) refl refl refl)
