-- ===== src/Security/Permission/Targets.antt =====
-- The ON clause of a permission.
use rust_sqlpackage.Prelude.{
  ℕ, ◌≡◌, refl, Bool, true, false, Option, none, some, List, [], ◌∷◌, ◌++◌, append-nil,
  append_assoc, codes,
}
use rust_sqlpackage.Token.{
  Token, Word, word, period, double_colon, is_whitespace_token, discriminant,
}
use rust_sqlpackage.TokenParser.{TokenParser, is_keyword, is_word_ci, skip_whitespace}
use rust_sqlpackage.TokenParser.Cursor.{cursor, AllBlank}
use rust_sqlpackage.Preprocess.Replace.{attempt_laws}
use rust_sqlpackage.Storage.Partition.{upper, skip_whitespace-solid}
use rust_sqlpackage.Security.Permission.{
  PermissionTarget, object, schema, database, object_reference, parse_permission_target, on_target,
}

-- A target as written: nothing, a schema, with or without `::`, or an object, with or without
-- `OBJECT::` and its schema.
pub data Target : Type 0 where
  whole_database : Target
  a_schema : Bool → Word → Target
  an_object : Bool → Option Word → Word → Target

abbrev colon_tokens : Bool → List Token → List Token → List Token
colon_tokens true g ts = double_colon ∷ (g ++ ts)
colon_tokens false g ts = ts

abbrev name_tokens : Option Word → Word → List Token → List Token → List Token → List Token
name_tokens none n g g' ts = word n ∷ ts
name_tokens (some s) n g g' ts = word s ∷ (g ++ (period ∷ (g' ++ (word n ∷ ts))))

-- The white space inside is that of `g`, and `gap` stands behind the clause.
unfoldable pub target_tokens : (ℕ → List Token) → Target → List Token → List Token → List Token
target_tokens g whole_database gap ts = ts
target_tokens g (a_schema colon n) gap ts =
    upper "ON"
    ∷ (g 0 ++ (upper "SCHEMA" ∷ (g 1 ++ colon_tokens colon (g 2) (word n ∷ (gap ++ ts)))))
target_tokens g (an_object true s n) gap ts =
    upper "ON"
    ∷ (g 0
        ++ (upper "OBJECT"
            ∷ (g 1 ++ (double_colon ∷ (g 2 ++ name_tokens s n (g 3) (g 4) (gap ++ ts))))))
target_tokens g (an_object false s n) gap ts =
    upper "ON" ∷ (g 0 ++ name_tokens s n (g 3) (g 4) (gap ++ ts))

pub target_tokens-append :
    (g : ℕ → List Token) (t : Target) (gap us ts : List Token)
    → target_tokens g t gap us ++ ts ≡ target_tokens g t gap (us ++ ts)
unfolding target_tokens
target_tokens-append g whole_database gap us ts = refl
target_tokens-append g (a_schema true n) gap us ts = simp append_assoc
target_tokens-append g (a_schema false n) gap us ts = simp append_assoc
target_tokens-append g (an_object true none n) gap us ts = simp append_assoc
target_tokens-append g (an_object true (some s) n) gap us ts = simp append_assoc
target_tokens-append g (an_object false none n) gap us ts = simp append_assoc
target_tokens-append g (an_object false (some s) n) gap us ts = simp append_assoc

abbrev pub target_of : Target → PermissionTarget
target_of whole_database = database
target_of (a_schema colon n) = schema n.value
target_of (an_object explicit none n) = object none n.value
target_of (an_object explicit (some s) n) = object (some s.value) n.value

-- A name that stands without `OBJECT::` does not begin with the word SCHEMA or OBJECT.
abbrev first_word : Option Word → Word → Word
first_word none n = n
first_word (some s) n = s

abbrev pub IsTarget : Target → Type 0
IsTarget (an_object false s n) =
    (is_word_ci (codes "SCHEMA") (word (first_word s n)) ≡ false)
    × (is_word_ci (codes "OBJECT") (word (first_word s n)) ≡ false)
IsTarget _ = Unit

-- Where the parser stands behind the clause: a name of one part takes the white space with it.
unfoldable pub target_end :
    (ℕ → List Token) → Target → List Token → List Token → List Token → TokenParser
target_end g whole_database gap b ts = cursor b ts
target_end g (a_schema colon n) gap b ts =
    cursor (b ++ target_tokens g (a_schema colon n) [] []) (gap ++ ts)
target_end g (an_object explicit none n) gap b ts =
    cursor (b ++ target_tokens g (an_object explicit none n) gap []) ts
target_end g (an_object explicit (some s) n) gap b ts =
    cursor (b ++ target_tokens g (an_object explicit (some s) n) [] []) (gap ++ ts)

module _ (g : ℕ → List Token) (h : (i : ℕ) → AllBlank (g i)) (gap : List Token)
    (blank : AllBlank gap) (to : Word) (b ts : List Token) where
  pub on_target-target :
      (t : Target)
      → IsTarget t
      → is_keyword "ON" (word to) ≡ false
      → on_target (cursor b (target_tokens g t gap (word to ∷ ts)))
        ≡ (some (target_of t), target_end g t gap b (word to ∷ ts))
  unfolding on_target target_tokens parse_permission_target object_reference target_end is_keyword
      is_word_ci is_whitespace_token discriminant
  on_target-target whole_database k e = simp (attempt_laws, e)
  on_target-target (a_schema true n) k e = simp (attempt_laws, h, append-nil)
  on_target-target (a_schema false n) k e = simp (attempt_laws, h, append-nil)
  on_target-target (an_object true none n) k e = simp (attempt_laws, h, blank, append-nil)
  on_target-target (an_object true (some s) n) k e = simp (attempt_laws, h, append-nil)
  on_target-target (an_object false none n) (k, k') e =
      simp (attempt_laws, h, blank, append-nil, k, k')
  on_target-target (an_object false (some s) n) (k, k') e =
      simp (attempt_laws, h, append-nil, k, k')

  pub skip_whitespace-target_end :
      (t : Target)
      → skip_whitespace (target_end g t gap b (word to ∷ ts))
        ≡ cursor (b ++ target_tokens g t gap []) (word to ∷ ts)
  unfolding target_end target_tokens is_whitespace_token
  skip_whitespace-target_end whole_database = simp (skip_whitespace-solid, append-nil)
  skip_whitespace-target_end (a_schema true n) = simp (attempt_laws, append-nil)
  skip_whitespace-target_end (a_schema false n) = simp (attempt_laws, append-nil)
  skip_whitespace-target_end (an_object true none n) = simp (skip_whitespace-solid)
  skip_whitespace-target_end (an_object true (some s) n) = simp (attempt_laws, append-nil)
  skip_whitespace-target_end (an_object false none n) = simp (skip_whitespace-solid)
  skip_whitespace-target_end (an_object false (some s) n) = simp (attempt_laws, append-nil)
