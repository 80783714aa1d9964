-- ===== src/Security/Permission/Names.antt =====
-- The words of a permission's name, up to ON, TO or FROM.
use rust_sqlpackage.Prelude.{
  ℕ, zero, suc, ◌≤◌, ◌≡◌, refl, ◌∙◌, Bool, true, false, ◌||◌, none, some, List, [], ◌∷◌, ◌++◌,
  append-nil, append_assoc, arith, length, length-append, Text,
}
use rust_sqlpackage.Token.{Token, Word, word, comma, Sqlparser, is_whitespace_token}
use rust_sqlpackage.TokenParser.{is_keyword, remaining}
use rust_sqlpackage.TokenParser.Cursor.{
  cursor, AllBlank, remaining-cursor, current_token-cursor, cursor_laws, advance-cursor,
}
use rust_sqlpackage.Security.Gap.{IsSolid, skip_whitespace-gap}
use rust_sqlpackage.Security.Permission.{name_word, name_loop, join_words, parse_permission_name}

-- The keywords that end a name.
abbrev pub ends : Token → Bool
ends t = is_keyword "ON" t || is_keyword "TO" t || is_keyword "FROM" t

-- A word of the name, and the white space behind it.
pub record Part : Type 0 where
  pub part : Word
  pub gap : List Token

abbrev pub AreParts : List Part → Type 0
AreParts [] = Unit
AreParts (p ∷ ps) = (ends (word p.part) ≡ false) × AllBlank p.gap × AreParts ps

unfoldable pub name_tokens : List Part → List Token → List Token
name_tokens [] ts = ts
name_tokens (p ∷ ps) ts = word p.part ∷ (p.gap ++ name_tokens ps ts)

pub name_tokens-append :
    (ps : List Part) (us ts : List Token) → name_tokens ps us ++ ts ≡ name_tokens ps (us ++ ts)
unfolding name_tokens
name_tokens-append [] us ts = refl
name_tokens-append (p ∷ ps) us ts = simp (append_assoc, name_tokens-append ps us ts)

abbrev pub words : Sqlparser → List Part → List Text
words lib [] = []
words lib (p ∷ ps) = lib.to_uppercase p.part.value ∷ words lib ps

name_word-part :
    (w : Word) (b ts : List Token)
    → ends (word w) ≡ false
    → name_word (cursor b (word w ∷ ts)) ≡ some w.value
unfolding name_word
name_word-part w b ts h =
    rw (current_token-cursor b (word w ∷ ts), name_word) (simp (cursor_laws, h))

-- What follows the name: no white space, and nothing that the loop takes.
pub record Stops (ts : List Token) : Type 0 where
  pub solid : IsSolid ts
  pub none_here : (b : List Token) → name_word (cursor b ts) ≡ none

-- ON, TO and FROM stop the loop, and so does a comma.
pub Stops-ends :
    (t : Token) (ts : List Token) → is_whitespace_token t ≡ false → ends t ≡ true → Stops (t ∷ ts)
unfolding name_word
Stops-ends t ts s e = record { solid = s; none_here = λ b. simp (cursor_laws, e) }

pub Stops-comma : (ts : List Token) → Stops (comma ∷ ts)
unfolding name_word is_whitespace_token is_keyword
Stops-comma ts = record {
  solid = refl;
  none_here = λ b. rw (current_token-cursor b (comma ∷ ts), name_word) (simp cursor_laws);
}

name_tokens-IsSolid : (ps : List Part) (ts : List Token) → Stops ts → IsSolid (name_tokens ps ts)
unfolding name_tokens is_whitespace_token
name_tokens-IsSolid [] ts s = s.solid
name_tokens-IsSolid (p ∷ ps) ts s = refl

module _ (lib : Sqlparser) (ts : List Token) (stop : Stops ts) where
  name_loop-parts :
      (f : ℕ) (ps : List Part) (done : List Text) (b : List Token)
      → AreParts ps
      → length (name_tokens ps ts) ≤ f
      → name_loop lib f done (cursor b (name_tokens ps ts))
        ≡ (done ++ words lib ps, cursor (b ++ name_tokens ps []) ts)
  unfolding name_loop name_tokens
  name_loop-parts zero [] done b h k = simp append-nil
  name_loop-parts zero (p ∷ ps) done b h k = elim k [ ]
  name_loop-parts (suc f) [] done b h k = rw (stop.none_here b, name_loop) (simp append-nil)
  name_loop-parts (suc f) (p ∷ ps) done b (not_end, blank, h) k =
      let seam =
        skip_whitespace-gap (b ++ word p.part ∷ []) p.gap (name_tokens ps ts) blank
          (name_tokens-IsSolid ps ts stop) in
      let rest =
        name_loop-parts f ps (done ++ lib.to_uppercase p.part.value ∷ [])
          (b ++ word p.part ∷ [] ++ p.gap) h
          (omega (arith, k, length-append p.gap (name_tokens ps ts))) in
      rw
        (
          name_word-part p.part b (p.gap ++ name_tokens ps ts) not_end,
          name_loop,
          advance-cursor b (word p.part) (p.gap ++ name_tokens ps ts),
          seam,
        )
        (rest ∙ simp append_assoc)

  -- One or more words none of which is ON, TO or FROM, in front of one of these: the name is the words
  -- in upper case with a space between, and the parser stops at the keyword.
  pub parse_permission_name-parts :
      (p : Part) (ps : List Part) (b : List Token)
      → AreParts (p ∷ ps)
      → parse_permission_name lib (cursor b (name_tokens (p ∷ ps) ts))
        ≡ (some (join_words (words lib (p ∷ ps))), cursor (b ++ name_tokens (p ∷ ps) []) ts)
  unfolding parse_permission_name
  parse_permission_name-parts p ps b h =
      rw
        (name_loop-parts (remaining (cursor b (name_tokens (p ∷ ps) ts))) (p ∷ ps) [] b h
          (omega (arith, remaining-cursor b (name_tokens (p ∷ ps) ts))))
        refl
