-- ===== src/Security/Gap.antt =====
-- White space in front of tokens that do not begin with white space, as in all the statements here.
use rust_sqlpackage.Prelude.{◌≡◌, refl, ◌∙◌, false, List, [], ◌∷◌, ◌++◌, append-nil}
use rust_sqlpackage.Token.{Token, is_whitespace_token}
use rust_sqlpackage.TokenParser.{skip_whitespace}
use rust_sqlpackage.TokenParser.Cursor.{
  cursor, head_is, AllBlank, blanks, skip_blank, skip_whitespace-cursor, skip_whitespace-blanks,
}

abbrev pub IsSolid : List Token → Type 0
IsSolid ts = head_is is_whitespace_token ts ≡ false

blanks_all : (ws : List Token) → AllBlank ws → blanks ws ≡ ws
blanks_all [] h = refl
blanks_all (w ∷ ws) h = rw h.0 (rw (blanks_all ws h.1))

skip_blank_all : (ws : List Token) → AllBlank ws → skip_blank ws ≡ []
skip_blank_all [] h = refl
skip_blank_all (w ∷ ws) h = rw h.0 (skip_blank_all ws h.1)

pub skip_whitespace-gap :
    (b ws ts : List Token)
    → AllBlank ws
    → IsSolid ts
    → skip_whitespace (cursor b (ws ++ ts)) ≡ cursor (b ++ ws) ts
skip_whitespace-gap b ws (t ∷ ts) h s = skip_whitespace-blanks t ts s b ws h
skip_whitespace-gap b ws [] h s =
    skip_whitespace-cursor b (ws ++ []) ∙ rw (append-nil ws, blanks_all ws h, skip_blank_all ws h)
