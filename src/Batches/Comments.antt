-- ===== src/Batches/Comments.antt =====
-- The comments of a line: a description of its text in pieces, and the scan.
use rust_sqlpackage.Prelude.{
  ℕ, ◌≡◌, refl, sym, ap, ◌∙◌, Bool, true, false, ◌&&◌, ◌||◌, [], ◌∷◌, ◌++◌, append-nil, arith, ◌==◌,
  Text,
}
use rust_sqlpackage.Batches.{scan_comments}

-- Whether two characters stand at the head of a text.
abbrev pub pair_at : ℕ → ℕ → Text → Bool
pair_at a b (c ∷ d ∷ cs) = c == a && d == b
pair_at a b _ = false

-- Outside comments, `/*` and `--` are marks; inside one, `*/` is.
abbrev pub is_mark : Bool → Text → Bool
is_mark false t = pair_at b'/' b'*' t || pair_at b'-' b'-' t
is_mark true t = pair_at b'*' b'/' t

-- In front of what follows it, a piece has no mark.
abbrev pub IsPlain : Bool → Text → Text → Type 0
IsPlain inside [] rest = Unit
IsPlain inside (c ∷ cs) rest = (is_mark inside (c ∷ (cs ++ rest)) ≡ false) × IsPlain inside cs rest

-- From whether a comment is open in front of a text to whether one is open behind it.
pub data Scanned : Bool → Text → Bool → Type 0 where
  all_plain : {inside : Bool} (t : Text) → IsPlain inside t [] → Scanned inside t inside
  line_comment :
      (code rest : Text)
      → IsPlain false code (b'-' ∷ b'-' ∷ rest)
      → Scanned false (code ++ b'-' ∷ b'-' ∷ rest) false
  opened :
      {s : Bool} (code rest : Text)
      → IsPlain false code (b'/' ∷ b'*' ∷ rest)
      → Scanned true rest s
      → Scanned false (code ++ b'/' ∷ b'*' ∷ rest) s
  closed :
      {s : Bool} (comment rest : Text)
      → IsPlain true comment (b'*' ∷ b'/' ∷ rest)
      → Scanned false rest s
      → Scanned true (comment ++ b'*' ∷ b'/' ∷ rest) s

scan_one :
    (inside : Bool) (c : ℕ) (t : Text)
    → is_mark inside (c ∷ t) ≡ false
    → scan_comments inside (c ∷ t) ≡ scan_comments inside t
unfolding scan_comments
scan_one false c [] h = refl
scan_one true c [] h = refl
scan_one false c (d ∷ t) h = ground (arith, h)
scan_one true c (d ∷ t) h = simp h

scan_plain :
    (inside : Bool) (t rest : Text)
    → IsPlain inside t rest
    → scan_comments inside (t ++ rest) ≡ scan_comments inside rest
scan_plain inside [] rest h = refl
scan_plain inside (c ∷ t) rest (h, k) = scan_one inside c (t ++ rest) h ∙ scan_plain inside t rest k

scan_nothing : (inside : Bool) → scan_comments inside [] ≡ inside
unfolding scan_comments
scan_nothing true = refl
scan_nothing false = refl

-- However a line falls into code, a line comment, and block comments that open and close, where no
-- mark stands inside a piece, the scan ends inside a comment exactly where the last one is not closed.
pub scan_comments-Scanned :
    {inside s : Bool} {t : Text} → Scanned inside t s → scan_comments inside t ≡ s
unfolding scan_comments
scan_comments-Scanned (all_plain {inside} t h) =
    ap (scan_comments inside) (sym (append-nil t)) ∙ scan_plain inside t [] h ∙ scan_nothing inside
scan_comments-Scanned (line_comment code rest h) = scan_plain false code (b'-' ∷ b'-' ∷ rest) h
scan_comments-Scanned (opened code rest h k) =
    scan_plain false code (b'/' ∷ b'*' ∷ rest) h ∙ scan_comments-Scanned k
scan_comments-Scanned (closed comment rest h k) =
    scan_plain true comment (b'*' ∷ b'/' ∷ rest) h ∙ scan_comments-Scanned k
