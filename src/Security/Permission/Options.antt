-- ===== src/Security/Permission/Options.antt =====
-- WITH GRANT OPTION and CASCADE behind the principal.
use rust_sqlpackage.Prelude.{
  ℕ, zero, suc, ◌≤◌, ◌≡◌, refl, ◌∙◌, true, false, List, [], ◌∷◌, ◌++◌, append-nil, append_assoc,
  arith, length, length-append,
}
use rust_sqlpackage.Token.{Token, is_whitespace_token}
use rust_sqlpackage.TokenParser.{is_keyword, is_word_ci}
use rust_sqlpackage.TokenParser.Cursor.{cursor, head_is, AllBlank}
use rust_sqlpackage.Preprocess.Replace.{attempt_laws}
use rust_sqlpackage.Storage.Partition.{upper}
use rust_sqlpackage.Security.Gap.{IsSolid, skip_whitespace-gap}
use rust_sqlpackage.Security.Permission.{Flags, with_option, flags_loop}

-- A flag as written, with the white space behind each of its words.
pub data Clause : Type 0 where
  granting : List Token → List Token → List Token → Clause
  cascading : List Token → Clause

abbrev pub option_tokens : Clause → List Token → List Token
option_tokens (granting g g' g'') ts =
    upper "WITH" ∷ (g ++ (upper "GRANT" ∷ (g' ++ (upper "OPTION" ∷ (g'' ++ ts)))))
option_tokens (cascading g) ts = upper "CASCADE" ∷ (g ++ ts)

abbrev pub IsSpaced : Clause → Type 0
IsSpaced (granting g g' g'') = AllBlank g × AllBlank g' × AllBlank g''
IsSpaced (cascading g) = AllBlank g

unfoldable pub options_tokens : List Clause → List Token → List Token
options_tokens [] ts = ts
options_tokens (o ∷ os) ts = option_tokens o (options_tokens os ts)

abbrev pub AreSpaced : List Clause → Type 0
AreSpaced [] = Unit
AreSpaced (o ∷ os) = IsSpaced o × AreSpaced os

abbrev note : Clause → Flags → Flags
note (granting g g' g'') s = record s { with_grant_option = true }
note (cascading g) s = record s { cascade = true }

unfoldable pub note_all : List Clause → Flags → Flags
note_all [] s = s
note_all (o ∷ os) s = note_all os (note o s)

-- What follows the flags: no white space and neither of their keywords.
pub record IsRest (ts : List Token) : Type 0 where
  pub solid : IsSolid ts
  pub no_with : head_is (is_keyword "WITH") ts ≡ false
  pub no_cascade : head_is (is_keyword "CASCADE") ts ≡ false

pub options_tokens-IsSolid :
    (os : List Clause) (ts : List Token) → IsSolid ts → IsSolid (options_tokens os ts)
unfolding options_tokens is_whitespace_token
options_tokens-IsSolid [] ts s = s
options_tokens-IsSolid (granting g g' g'' ∷ os) ts s = refl
options_tokens-IsSolid (cascading g ∷ os) ts s = refl

flags_loop-granting :
    (f : ℕ) (s : Flags) (b g g' g'' ts : List Token)
    → AllBlank g
    → AllBlank g'
    → AllBlank g''
    → IsSolid ts
    → flags_loop (suc f) s (cursor b (option_tokens (granting g g' g'') ts))
      ≡ flags_loop f
          (note (granting g g' g'') s)
          (cursor (b ++ option_tokens (granting g g' g'') []) ts)
unfolding flags_loop with_option is_keyword is_word_ci is_whitespace_token
flags_loop-granting f s b g g' g'' ts h h' h'' solid =
    simp (attempt_laws, skip_whitespace-gap, solid, append-nil)

flags_loop-cascading :
    (f : ℕ) (s : Flags) (b g ts : List Token)
    → AllBlank g
    → IsSolid ts
    → flags_loop (suc f) s (cursor b (option_tokens (cascading g) ts))
      ≡ flags_loop f (note (cascading g) s) (cursor (b ++ option_tokens (cascading g) []) ts)
unfolding flags_loop with_option is_keyword is_word_ci is_whitespace_token
flags_loop-cascading f s b g ts h solid =
    simp (attempt_laws, skip_whitespace-gap, solid, append-nil)

flags_loop-rest :
    (f : ℕ) (s : Flags) (b ts : List Token)
    → IsRest ts
    → flags_loop f s (cursor b ts) ≡ (s, cursor b ts)
unfolding flags_loop with_option is_keyword
flags_loop-rest zero s b ts r = refl
flags_loop-rest (suc f) s b [] r = simp (attempt_laws)
flags_loop-rest (suc f) s b (t ∷ ts) r = simp (attempt_laws, r.no_with, r.no_cascade)

module _ (ts : List Token) (r : IsRest ts) where
  pub flags_loop-options :
      (f : ℕ) (os : List Clause) (s : Flags) (b : List Token)
      → AreSpaced os
      → length (options_tokens os ts) ≤ f
      → flags_loop f s (cursor b (options_tokens os ts))
        ≡ (note_all os s, cursor (b ++ options_tokens os []) ts)
  unfolding options_tokens note_all
  flags_loop-options f [] s b h k = flags_loop-rest f s b ts r ∙ simp append-nil
  flags_loop-options zero (granting g g' g'' ∷ os) s b h k = elim k [ ]
  flags_loop-options zero (cascading g ∷ os) s b h k = elim k [ ]
  flags_loop-options (suc f) (granting g g' g'' ∷ os) s b ((h₀, h₁, h₂), h) k =
      let us = options_tokens os ts in
      flags_loop-granting f s b g g' g'' us h₀ h₁ h₂ (options_tokens-IsSolid os ts r.solid)
      ∙ flags_loop-options f os (note (granting g g' g'') s) _ h (
          omega (
            arith,
            k,
            length-append g (upper "GRANT" ∷ (g' ++ (upper "OPTION" ∷ (g'' ++ us)))),
            length-append g' (upper "OPTION" ∷ (g'' ++ us)),
            length-append g'' us,
          ))
      ∙ simp (append_assoc, append-nil)
  flags_loop-options (suc f) (cascading g ∷ os) s b (h₀, h) k =
      let us = options_tokens os ts in
      flags_loop-cascading f s b g us h₀ (options_tokens-IsSolid os ts r.solid)
      ∙ flags_loop-options f os (note (cascading g) s) _ h (omega (arith, k, length-append g us))
      ∙ simp (append_assoc, append-nil)
