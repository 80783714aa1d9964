-- ===== src/Synonym/Create.antt =====
-- Whole CREATE SYNONYM statements.
use rust_sqlpackage.Prelude.{
  ℕ, suc, ◌+◌, ◌-◌, ◌≡◌, refl, ◌∙◌, true, false, Option, none, some, List, [], ◌∷◌, ◌++◌,
  append-nil, append_assoc, arith, ltb, if◌then◌else◌, length, get_elem?, Text, codes,
}
use rust_sqlpackage.Token.{Token, Word, word, period, is_whitespace_token, discriminant}
use rust_sqlpackage.TokenParser.{
  TokenParser, skip_whitespace, is_keyword, is_word_ci, parse_schema_qualified_name,
}
use rust_sqlpackage.TokenParser.Cursor.{
  skip_whitespace-cursor, cursor, head_is, AllBlank, blanks, skip_blank,
}
use rust_sqlpackage.Preprocess.Replace.{attempt_laws}
use rust_sqlpackage.Synonym.{TokenParsedSynonym, parse_create_synonym, synonym_of}
use rust_sqlpackage.Synonym.Target.{
  Part, dotted, values, AreSpaced, is_period, parse_multi_part_name-dotted,
}

-- A schema in front of a name, with the white space before and behind the dot.
abbrev pub Prefix : Type 0
Prefix = Word × List Token × List Token

abbrev pub IsSpaced : Option Prefix → Type 0
IsSpaced none = Unit
IsSpaced (some (w, before, after)) = AllBlank before × AllBlank after

abbrev pub schema_or_dbo : Option Prefix → Text
schema_or_dbo none = codes "dbo"
schema_or_dbo (some (w, before, after)) = w.value

abbrev pub name_tokens : Option Prefix → Word → List Token → List Token
name_tokens none o ts = word o ∷ ts
name_tokens (some (w, before, after)) o ts =
    word w ∷ (before ++ (period ∷ (after ++ (word o ∷ ts))))

-- A statement's keywords, names, and the white space in front of each.
pub record Statement : Type 0 where
  pub gap₀ : List Token
  pub create_word : Word
  pub gap₁ : List Token
  pub synonym_word : Word
  pub gap₂ : List Token
  pub prefix : Option Prefix
  pub object : Word
  pub gap₃ : List Token
  pub for_word : Word
  pub gap₄ : List Token
  pub first : Word
  pub more : List Part

abbrev pub statement_tokens : Statement → List Token → List Token
statement_tokens s ts =
    s.gap₀
    ++ (word s.create_word
        ∷ (s.gap₁
            ++ (word s.synonym_word
                ∷ (s.gap₂
                    ++ name_tokens s.prefix s.object (
                        s.gap₃
                        ++ (word s.for_word
                            ∷ (s.gap₄ ++ (word s.first ∷ (dotted s.more ++ ts)))))))))

abbrev pub IsStatement : Statement → Type 0
IsStatement s =
    AllBlank s.gap₀
    × AllBlank s.gap₁
    × AllBlank s.gap₂
    × AllBlank s.gap₃
    × AllBlank s.gap₄
    × IsSpaced s.prefix
    × AreSpaced s.more
    × (is_keyword "CREATE" (word s.create_word) ≡ true)
    × (is_word_ci (codes "SYNONYM") (word s.synonym_word) ≡ true)
    × (is_keyword "FOR" (word s.for_word) ≡ true)

-- Where the parser stands behind the name: a name of one part takes the white space with it.
unfoldable name_end : Option Prefix → Word → List Token → List Token → List Token → TokenParser
name_end none o b ws ts = cursor (b ++ word o ∷ ws) ts
name_end (some x) o b ws ts = cursor (b ++ name_tokens (some x) o []) (ws ++ ts)

skip_whitespace-name :
    (x : Option Prefix) (o : Word) (b ws ts : List Token)
    → AllBlank ws
    → skip_whitespace (cursor b (ws ++ name_tokens x o ts)) ≡ cursor (b ++ ws) (name_tokens x o ts)
unfolding is_whitespace_token
skip_whitespace-name none o b ws ts hw = simp attempt_laws
skip_whitespace-name (some (w, before, after)) o b ws ts hw = simp attempt_laws

parse_name :
    (x : Option Prefix) (o f : Word) (b ws ts : List Token)
    → IsSpaced x
    → AllBlank ws
    → parse_schema_qualified_name (cursor b (name_tokens x o (ws ++ (word f ∷ ts))))
      ≡ (some (schema_or_dbo x, o.value), name_end x o b ws (word f ∷ ts))
unfolding parse_schema_qualified_name name_end discriminant is_whitespace_token
parse_name none o f b ws ts hx hw = simp attempt_laws
parse_name (some (w, before, after)) o f b ws ts (hb, ha) hw = simp attempt_laws

skip_whitespace-name_end :
    (x : Option Prefix) (o f : Word) (b ws ts : List Token)
    → AllBlank ws
    → skip_whitespace (name_end x o b ws (word f ∷ ts))
      ≡ cursor (b ++ name_tokens x o ws) (word f ∷ ts)
unfolding name_end is_whitespace_token
skip_whitespace-name_end none o f b ws ts hw =
    skip_whitespace-cursor (b ++ word o ∷ ws) (word f ∷ ts) ∙ simp append-nil
skip_whitespace-name_end (some x) o f b ws ts hw = simp attempt_laws

name_tokens-append :
    (x : Option Prefix) (o : Word) (us ts : List Token)
    → name_tokens x o us ++ ts ≡ name_tokens x o (us ++ ts)
name_tokens-append none o us ts = refl
name_tokens-append (some (w, before, after)) o us ts = simp append_assoc

-- The part that `i` others follow, if there are so many parts.
unfoldable pub from_end : ℕ → List Text → Option Text
from_end i parts = if ltb i (length parts) then get_elem? parts (length parts - (i + 1)) else none

abbrev or_dbo : Option Text → Text
or_dbo none = codes "dbo"
or_dbo (some s) = s

-- The synonym with a target of such parts: from the last part on they are the name, the schema, the
-- database and the server, and there are no more than four.
unfoldable pub with_target : Text → Text → List Text → Option TokenParsedSynonym
with_target schema name parts = if ltb 4 (length parts) then none else elim (from_end 0 parts) [
  | none ↦ none
  | some target ↦ some (record {
    schema = schema;
    name = name;
    target_schema = or_dbo (from_end 1 parts);
    target_name = target;
    target_database = from_end 2 parts;
    target_server = from_end 3 parts;
  })
]

four_less : (n : ℕ) → ltb 4 (suc (suc (suc (suc (suc n))))) ≡ true
four_less n = ground arith

synonym_of-with_target :
    (schema name : Text) (parts : List Text)
    → synonym_of schema name parts ≡ with_target schema name parts
unfolding synonym_of with_target from_end
synonym_of-with_target schema name [] = refl
synonym_of-with_target schema name (n ∷ []) = refl
synonym_of-with_target schema name (t ∷ n ∷ []) = refl
synonym_of-with_target schema name (d ∷ t ∷ n ∷ []) = refl
synonym_of-with_target schema name (v ∷ d ∷ t ∷ n ∷ []) = refl
synonym_of-with_target schema name (x ∷ v ∷ d ∷ t ∷ n ∷ more) = rw (four_less (length more))

module _ (s : Statement) (b ts : List Token) where
  -- CREATE SYNONYM name FOR target, where any white space stands between the parts and no dot
  -- follows, gives the synonym with its schema, or dbo, and its name; the parts of the target
  -- are from the last one on its name, its schema, or dbo, its database and its server, and
  -- more than four parts are refused.
  pub parse_create_synonym-Statement :
      IsStatement s
      → head_is is_period (skip_blank ts) ≡ false
      → parse_create_synonym (cursor b (statement_tokens s ts)) ≡ (
        with_target (schema_or_dbo s.prefix) s.object.value (s.first.value ∷ values s.more),
        cursor (b ++ statement_tokens s (blanks ts)) (skip_blank ts),
      )
  unfolding parse_create_synonym discriminant is_whitespace_token
  parse_create_synonym-Statement (h₀, h₁, h₂, h₃, h₄, hx, hm, hc, hs, hf) e = simp (
    attempt_laws, hc, hs, hf, skip_whitespace-name, parse_name, skip_whitespace-name_end,
    name_tokens-append, parse_multi_part_name-dotted, e, synonym_of-with_target,
  )
