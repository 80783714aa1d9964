-- ===== src/Xml/LineEndings.antt =====
-- The line endings of a normalized script.
use rust_sqlpackage.Prelude.{
  ℕ, ◌≡◌, refl, inl, inr, false, [], ◌∷◌, ◌++◌, arith, ◌==◌, if◌then◌else◌, Text,
}
use rust_sqlpackage.Util.{any}
use rust_sqlpackage.Xml.{normalize_script_content}
use rust_sqlpackage.Xml.Escape.{decide_same}

-- A text with LF endings, written with CR and LF.
unfoldable pub to_crlf : Text → Text
to_crlf [] = []
to_crlf (c ∷ s) = (if c == 10 then 13 ∷ 10 ∷ [] else c ∷ []) ++ to_crlf s

normalize_other :
    (c : ℕ) (t : Text)
    → (c == 13) ≡ false
    → normalize_script_content (c ∷ t) ≡ c ∷ normalize_script_content t
unfolding normalize_script_content
normalize_other c [] h = refl
normalize_other c (d ∷ t) h = simp h

normalize_crlf :
    (t : Text) → normalize_script_content (13 ∷ 10 ∷ t) ≡ 10 ∷ normalize_script_content t
unfolding normalize_script_content
normalize_crlf t = refl

normalize_nil : normalize_script_content [] ≡ []
unfolding normalize_script_content
normalize_nil = refl

-- A text without CR, written with CRLF line endings, is normalized back to that text.
pub normalize_script_content-to_crlf :
    (s : Text) → any (λ c. c == 13) s ≡ false → normalize_script_content (to_crlf s) ≡ s
unfolding to_crlf any
normalize_script_content-to_crlf [] h = normalize_nil
normalize_script_content-to_crlf (c ∷ s) h =
    let no_cr : (c == 13) ≡ false = ground (arith, h) in
    let rest = normalize_script_content-to_crlf s (simp no_cr at h) in
    elim (decide_same c 10) [
      | inl e ↦ rw (e, normalize_crlf (to_crlf s), rest)
      | inr k ↦ simp (k, normalize_other c (to_crlf s) no_cr, rest)
    ]
