-- ===== src/ColumnParser/Regular.antt =====
-- Whole definitions of columns with a data type.
use rust_sqlpackage.Prelude.{
  ℕ, ◌≡◌, refl, ap, Bool, true, false, Option, none, some, List, [], ◌∷◌, ◌++◌, append-nil, Text,
  codes, trim,
}
use mathlib.Core.Option
use rust_sqlpackage.Token.{
  Token, Word, word, l_paren, r_paren, Sqlparser, discriminant, is_whitespace_token,
}
use rust_sqlpackage.TokenParser.{TokenParser, same_kind, is_keyword, is_word_ci, skip_whitespace}
use rust_sqlpackage.TokenParser.Cursor.{
  cursor, AllBlank, head_is, skip_blank, skip_whitespace-cursor, skip_blank-append,
}
use rust_sqlpackage.TokenParser.Groups.{concat_tokens}
use rust_sqlpackage.TokenParser.Groups.Balanced.{Balanced}
use rust_sqlpackage.TokenParser.Gaps.{later}
use rust_sqlpackage.Storage.Partition.{upper, storage_laws}
use rust_sqlpackage.Constraint.Expression.{content_loop-Balanced}
use rust_sqlpackage.ColumnParser.{
  TokenParsedColumn, Modifiers, parse_data_type, parse_collation, consume_parenthesized_raw, parse,
  regular_column, parse_column_modifiers,
}
use rust_sqlpackage.ColumnParser.Modifier.{
  Modifier, Clustering, named, primary_key, default_number, grouped, apply, first_word,
  argument_tokens, skip_blank_again, no_blanks,
}
use rust_sqlpackage.ColumnParser.Written.{
  modifiers_tokens, apply_all, AreModifiers, skip_blank_all, no_clustering, modifiers-Ends,
  parse_column_modifiers-modifiers, parse_column_modifiers_skipped,
}

-- COLLATE and a name, if any, in front of the modifiers.
abbrev pub collate_tokens : (ℕ → List Token) → Option Word → List Modifier → List Token
collate_tokens g none ms = modifiers_tokens g ms
collate_tokens g (some c) ms =
    g 43 ++ (upper "COLLATE" ∷ (g 44 ++ (word c ∷ modifiers_tokens g ms)))

-- The parameters of a type in parentheses, if any.
abbrev pub params_tokens : (ℕ → List Token) → Option (List Token) → List Token → List Token
params_tokens g none ts = ts
params_tokens g (some inside) ts = g 42 ++ (l_paren ∷ (inside ++ (r_paren ∷ ts)))

-- A column: its name, its type with parameters or without, its collation and its modifiers.
abbrev pub column_definition :
    (ℕ → List Token) → Word → Word → Option (List Token) → Option Word → List Modifier → List Token
column_definition g name type params collate ms =
    g 40
    ++ (word name ∷ (g 41 ++ (word type ∷ params_tokens g params (collate_tokens g collate ms))))

abbrev pub AreParams : Option (List Token) → Type 0
AreParams none = Unit
AreParams (some inside) = Balanced inside

abbrev pub type_text : Sqlparser → Word → Option (List Token) → Text
type_text lib type none = lib.to_uppercase type.value
type_text lib type (some inside) =
    lib.to_uppercase type.value ++ grouped (trim (concat_tokens lib inside))

abbrev pub collation_of : Option Word → Option Text
collation_of none = none
collation_of (some c) = some c.value

-- A column before its modifiers: its name, type and collation, and no more.
abbrev pub plain_column : Text → Text → Option Text → TokenParsedColumn
plain_column name data_type collation = record {
  name = name;
  data_type = data_type;
  nullability = none;
  is_identity = false;
  is_rowguidcol = false;
  is_sparse = false;
  is_filestream = false;
  default_constraint_name = none;
  default_value = none;
  emit_default_constraint_name = false;
  check_constraint_name = none;
  check_expression = none;
  emit_check_constraint_name = false;
  computed_expression = none;
  is_persisted = false;
  collation = collation;
  is_generated_always_start = false;
  is_generated_always_end = false;
  is_hidden = false;
  masking_function = none;
}

-- The column to which modifiers are applied, with no name of a CONSTRAINT in front.
abbrev pub unnamed : TokenParsedColumn → Modifiers
unnamed c = record {
  column = c;
  pending_constraint_name = none;
  constraint_immediately_precedes = false;
}

-- The name of a column's default, and whether it is written.
abbrev pub default_name : TokenParsedColumn → Option Text × Bool
default_name c = (c.default_constraint_name, c.emit_default_constraint_name)

module _ (lib : Sqlparser) (g : ℕ → List Token) (h : (i : ℕ) → AllBlank (g i)) where
  no_collate :
      (ms : List Modifier)
      → head_is (is_word_ci (codes "COLLATE")) (skip_blank (modifiers_tokens g ms)) ≡ false
  unfolding modifiers_tokens is_whitespace_token
  no_collate [] = let (e, e') = skip_blank_all (g 50) (h 50) in rw e
  no_collate (m ∷ ms) =
      rw
        (skip_blank-append (upper (first_word m))
          (argument_tokens g m (modifiers_tokens (later g) ms)) refl (g 51) (h 51))
        (no_clustering m).2

  no_group :
      (c : Option Word) (ms : List Modifier)
      → head_is (same_kind l_paren) (skip_blank (collate_tokens g c ms)) ≡ false
  unfolding is_whitespace_token discriminant
  no_group none ms = (modifiers-Ends lib g h ms).0
  no_group (some c) ms = rw (
      skip_blank-append (upper "COLLATE") (g 44 ++ (word c ∷ modifiers_tokens g ms)) refl (g 43)
        (h 43))

  -- Where the parser stands behind the type: the look for parameters takes the white space.
  type_end : Option (List Token) → List Token → List Token → TokenParser
  type_end none b ts = skip_whitespace (cursor b ts)
  type_end (some inside) b ts = cursor (b ++ params_tokens g (some inside) []) ts

  parse_data_type-type :
      (type : Word) (params : Option (List Token)) (b ts : List Token)
      → AreParams params
      → head_is (same_kind l_paren) (skip_blank ts) ≡ false
      → parse_data_type lib (cursor b (word type ∷ params_tokens g params ts))
        ≡ (some (type_text lib type params), type_end params (b ++ word type ∷ []) ts)
  unfolding parse_data_type consume_parenthesized_raw type_end is_whitespace_token discriminant
  parse_data_type-type type none b ts k e = simp (storage_laws, skip_whitespace-cursor, e)
  parse_data_type-type type (some inside) b ts k e =
      simp (storage_laws, h, content_loop-Balanced lib k)

  skip_whitespace-type_end :
      (params : Option (List Token)) (b ts : List Token)
      → skip_whitespace (type_end params b ts)
        ≡ skip_whitespace (cursor (b ++ params_tokens g params []) ts)
  unfolding type_end
  skip_whitespace-type_end none b ts =
      simp (append-nil, skip_whitespace-cursor, skip_blank_again, no_blanks)
  skip_whitespace-type_end (some inside) b ts = refl

  -- Where it stands behind the collation.
  collation_end : Option Word → List Token → List Modifier → TokenParser
  collation_end none b ms = skip_whitespace (cursor b (modifiers_tokens g ms))
  collation_end (some c) b ms =
      cursor (b ++ (g 43 ++ (upper "COLLATE" ∷ (g 44 ++ word c ∷ [])))) (modifiers_tokens g ms)

  parse_collation-collate :
      (c : Option Word) (ms : List Modifier) (p : TokenParser) (b : List Token)
      → skip_whitespace p ≡ skip_whitespace (cursor b (collate_tokens g c ms))
      → parse_collation p ≡ (collation_of c, collation_end c b ms)
  unfolding parse_collation collation_end is_whitespace_token is_word_ci
  parse_collation-collate none ms p b e =
      rw e (simp (storage_laws, skip_whitespace-cursor, no_collate))
  parse_collation-collate (some c) ms p b e = rw e (simp (storage_laws, h))

  modifiers_behind :
      (column : TokenParsedColumn) (c : Option Word) (ms : List Modifier) (b : List Token)
      → AreModifiers ms
      → (parse_column_modifiers lib column (collation_end c b ms)).0
        ≡ (apply_all lib ms (unnamed column)).column
  unfolding collation_end
  modifiers_behind column none ms b ks =
      ap (λ r. r.0) (parse_column_modifiers_skipped lib g h column ms b ks)
  modifiers_behind column (some c) ms b ks =
      ap (λ r. r.0) (parse_column_modifiers-modifiers lib g h column ms _ ks)

  regular_column-definition :
      (name type : Word) (params : Option (List Token)) (c : Option Word) (ms : List Modifier)
      (b : List Token)
      → AreParams params
      → AreModifiers ms
      → (regular_column lib name.value
          (cursor b (word type ∷ params_tokens g params (collate_tokens g c ms)))).0
        ≡ some
            (apply_all lib ms (
              unnamed
                (plain_column name.value (type_text lib type params) (collation_of c)))).column
  unfolding regular_column
  regular_column-definition name type params c ms b k ks =
      let ts = collate_tokens g c ms in
      let typed = parse_data_type-type type params b ts k (no_group c ms) in
      let b' = b ++ word type ∷ [] in
      let collated =
        parse_collation-collate c ms (type_end params b' ts) (b' ++ params_tokens g params [])
          (skip_whitespace-type_end params b' ts) in
      simp (storage_laws, typed, collated, modifiers_behind, ks)

  pub parse-column_definition :
      (name type : Word) (params : Option (List Token)) (c : Option Word) (ms : List Modifier)
      → is_keyword "AS" (word type) ≡ false
      → AreParams params
      → AreModifiers ms
      → (parse lib (cursor [] (column_definition g name type params c ms))).0
        ≡ some
            (apply_all lib ms (
              unnamed
                (plain_column name.value (type_text lib type params) (collation_of c)))).column
  unfolding parse is_whitespace_token
  parse-column_definition name type params c ms e k ks =
      simp (storage_laws, h, e, regular_column-definition, k, ks)

  -- At a column whose modifiers are CONSTRAINT with a name, an inline PRIMARY KEY, and DEFAULT with a
  -- number, the name of the key becomes the name of the default, and it is to be written.
  pub parse-inline_key :
      (name type : Word) (params : Option (List Token)) (c : Option Word) (key : Word)
      (k : Clustering) (n : Text) (l : Bool)
      → is_keyword "AS" (word type) ≡ false
      → AreParams params
      → Option.map default_name
          (parse lib (
            cursor [] (
              column_definition g name type params c
                (named key ∷ (primary_key k ∷ (default_number n l ∷ [])))))).0
        ≡ some (some key.value, true)
  unfolding apply apply_all
  parse-inline_key name type params c key k n l e ps = rw (
      parse-column_definition name type params c
        (named key ∷ (primary_key k ∷ (default_number n l ∷ []))) e ps (tt, (tt, (tt, tt))))
