-- ===== src/Constraint/Table.antt =====
-- Constraints in CREATE TABLE and in ALTER TABLE.
use rust_sqlpackage.Prelude.{
  ℕ, ◌≡◌, refl, false, Option, none, some, List, [], ◌∷◌, ◌++◌, append-nil, append_assoc, Text,
  codes,
}
use rust_sqlpackage.Token.{Token, Word, word, Sqlparser, Keyword, discriminant, is_whitespace_token}
use rust_sqlpackage.TokenParser.{
  is_keyword, is_word_ci, parse_schema_qualified_name, skip_whitespace,
}
use rust_sqlpackage.TokenParser.Cursor.{cursor, AllBlank, head_is}
use rust_sqlpackage.Storage.Partition.{upper, storage_laws}
use rust_sqlpackage.Constraint.{
  skip_with_check, alter_table_name, parse_alter_table_add_constraint, optional_name,
  parse_table_constraint,
}
use rust_sqlpackage.Constraint.TableName.{
  TableName, table_tokens, qualified, parse_schema_qualified_name-table, skip_whitespace-table_end,
  at_table, table_end, table_tokens-append,
}
use rust_sqlpackage.Constraint.Statements.{
  Definition, primary_key_def, unique_def, foreign_key_def, check_def, definition_tokens,
  IsDefinition, constraint_of, kind_name, constraint_by_kind-definition,
}

-- WITH CHECK, WITH NOCHECK or neither.
pub data With : Type 0 where
  check nocheck unsaid : With

abbrev pub with_tokens : (ℕ → List Token) → With → List Token → List Token
with_tokens g check ts = upper "WITH" ∷ (g 33 ++ (upper "CHECK" ∷ (g 34 ++ ts)))
with_tokens g nocheck ts = upper "WITH" ∷ (g 33 ++ (upper "NOCHECK" ∷ (g 34 ++ ts)))
with_tokens g unsaid ts = ts

-- ALTER TABLE table, WITH CHECK or NOCHECK if any, ADD CONSTRAINT name and the definition.
abbrev pub alter_tokens :
    (ℕ → List Token) → TableName → With → Word → Definition → List Token → List Token
alter_tokens g t w name d ts =
    g 30
    ++ (upper "ALTER"
        ∷ (g 31
            ++ (upper "TABLE"
                ∷ (g 32
                    ++ table_tokens g t (
                        g 35
                        ++ with_tokens g w (
                            upper "ADD"
                            ∷ (g 36
                                ++ (upper "CONSTRAINT"
                                    ∷ (g 37
                                        ++ (word name ∷ (g 38 ++ definition_tokens g d ts)))))))))))

-- A definition in CREATE TABLE, with CONSTRAINT and a name in front of it or without.
abbrev pub table_constraint : (ℕ → List Token) → Option Word → Definition → List Token → List Token
table_constraint g none d ts = g 30 ++ definition_tokens g d ts
table_constraint g (some n) d ts =
    g 30 ++ (upper "CONSTRAINT" ∷ (g 31 ++ (word n ∷ (g 32 ++ definition_tokens g d ts))))

-- The name of a constraint that has none: a prefix for its kind and the table's name.
abbrev pub name_of : Option Word → Text → Definition → Text
name_of none table d = kind_name (codes "PK_") (codes "UQ_") (codes "FK_") (codes "CK_") d ++ table
name_of (some n) table d = n.value

module _ (lib : Sqlparser) (g : ℕ → List Token) (h : (i : ℕ) → AllBlank (g i)) where
  definition_head :
      (d : Definition) (ts : List Token)
      → (k : Keyword) × (us : List Token) × (definition_tokens g d ts ≡ upper k ∷ us)
        × (is_keyword "CONSTRAINT" (upper k) ≡ false)
  unfolding definition_tokens is_keyword
  definition_head (primary_key_def k c ds) ts = ("PRIMARY", _, refl, refl)
  definition_head (unique_def k c ds) ts = ("UNIQUE", _, refl, refl)
  definition_head (foreign_key_def c ds t r rs) ts = ("FOREIGN", _, refl, refl)
  definition_head (check_def inside) ts = ("CHECK", _, refl, refl)

  at_definition :
      (d : Definition) (i : ℕ) (b ts : List Token)
      → skip_whitespace (cursor b (g i ++ definition_tokens g d ts))
        ≡ cursor (b ++ g i) (definition_tokens g d ts)
  unfolding is_whitespace_token
  at_definition d i b ts =
      let (k, us, e, other) = definition_head d ts in rw e (simp (storage_laws, h))

  at_definition_again :
      (d : Definition) (b ts : List Token)
      → skip_whitespace (cursor b (definition_tokens g d ts)) ≡ cursor b (definition_tokens g d ts)
  unfolding is_whitespace_token
  at_definition_again d b ts =
      let (k, us, e, other) = definition_head d ts in rw e (simp storage_laws)

  no_name :
      (d : Definition) (ts : List Token)
      → head_is (is_keyword "CONSTRAINT") (definition_tokens g d ts) ≡ false
  no_name d ts = let (k, us, e, other) = definition_head d ts in rw e other

  with_head :
      (w : With) (ts : List Token)
      → (k : Keyword) × (us : List Token) × (with_tokens g w (upper "ADD" ∷ ts) ≡ upper k ∷ us)
  with_head check ts = ("WITH", _, refl)
  with_head nocheck ts = ("WITH", _, refl)
  with_head unsaid ts = ("ADD", _, refl)

  name_before_with :
      (t : TableName) (w : With) (b ts : List Token)
      → parse_schema_qualified_name
          (cursor b (table_tokens g t (g 35 ++ with_tokens g w (upper "ADD" ∷ ts))))
        ≡ (some (qualified t), table_end g h t 35 b (with_tokens g w (upper "ADD" ∷ ts)))
  unfolding is_whitespace_token discriminant
  name_before_with t w b ts =
      let (k, us, e) = with_head w ts in
      rw e (parse_schema_qualified_name-table g h t 35 (upper k) b us refl refl)

  at_with :
      (t : TableName) (w : With) (b ts : List Token)
      → skip_whitespace (table_end g h t 35 b (with_tokens g w (upper "ADD" ∷ ts)))
        ≡ cursor (b ++ table_tokens g t (g 35)) (with_tokens g w (upper "ADD" ∷ ts))
  unfolding is_whitespace_token
  at_with t w b ts =
      let (k, us, e) = with_head w ts in
      rw e (skip_whitespace-table_end g h t 35 (upper k) b us refl)

  skip_with_check-with :
      (w : With) (b ts : List Token)
      → skip_with_check (cursor b (with_tokens g w (upper "ADD" ∷ ts)))
        ≡ (some tt, cursor (b ++ with_tokens g w []) (upper "ADD" ∷ ts))
  unfolding skip_with_check is_keyword is_word_ci is_whitespace_token
  skip_with_check-with check b ts = simp (storage_laws, h, append-nil)
  skip_with_check-with nocheck b ts = simp (storage_laws, h, append-nil)
  skip_with_check-with unsaid b ts = simp (storage_laws, append-nil)

  with_tokens-append :
      (w : With) (us ts : List Token) → with_tokens g w us ++ ts ≡ with_tokens g w (us ++ ts)
  with_tokens-append check us ts = simp append_assoc
  with_tokens-append nocheck us ts = simp append_assoc
  with_tokens-append unsaid us ts = refl

  one_name :
      (n : Text) (d : Definition)
      → constraint_of lib (kind_name n n n n) d ≡ constraint_of lib (λ _. n) d
  unfolding constraint_of
  one_name n (primary_key_def k c ds) = refl
  one_name n (unique_def k c ds) = refl
  one_name n (foreign_key_def c ds t r rs) = refl
  one_name n (check_def inside) = refl

  default_name :
      (table : Text) (d : Definition)
      → constraint_of lib
          (kind_name
            (codes "PK_" ++ table)
            (codes "UQ_" ++ table)
            (codes "FK_" ++ table)
            (codes "CK_" ++ table))
          d
        ≡ constraint_of lib (name_of none table) d
  unfolding constraint_of
  default_name table (primary_key_def k c ds) = refl
  default_name table (unique_def k c ds) = refl
  default_name table (foreign_key_def c ds t r rs) = refl
  default_name table (check_def inside) = refl

  -- ALTER TABLE with a table's name, with or without its schema, WITH CHECK, WITH NOCHECK or
  -- neither, ADD CONSTRAINT with a name, and a definition, with any white space at each place,
  -- give that table, with the schema dbo where none is written, and the constraint that is
  -- defined under that name; the parser stops behind the definition. A definition is a PRIMARY
  -- KEY or UNIQUE, CLUSTERED, NONCLUSTERED or neither, of columns each with ASC, DESC or
  -- neither, a FOREIGN KEY, or a CHECK whose parentheses are in balance and whose expression
  -- is not blank.
  pub parse_alter_table_add_constraint-alter_tokens :
      (t : TableName) (w : With) (name : Word) (d : Definition) (b ts : List Token)
      → IsDefinition lib d
      → parse_alter_table_add_constraint lib (cursor b (alter_tokens g t w name d ts)) ≡ (
        some (record {
          table_schema = (qualified t).0;
          table_name = (qualified t).1;
          constraint = constraint_of lib (λ _. name.value) d;
        }),
        cursor (b ++ alter_tokens g t w name d []) ts,
      )
  unfolding parse_alter_table_add_constraint alter_table_name is_keyword is_whitespace_token
  parse_alter_table_add_constraint-alter_tokens t w name d b ts v = simp (
    storage_laws,
    h,
    at_table g h,
    name_before_with,
    at_with,
    skip_with_check-with,
    at_definition,
    constraint_by_kind-definition lib g h,
    v,
    one_name,
    with_tokens-append,
    table_tokens-append g h,
  )

  -- A definition of a constraint as in ALTER TABLE, with any white space at each place, with
  -- CONSTRAINT and a name in front of it or without, gives the constraint under that name, or
  -- under PK_, UQ_, FK_ or CK_ and the table's name, by its kind, where it has none; the
  -- parser stops behind the definition.
  pub parse_table_constraint-table_constraint :
      (n : Option Word) (table : Text) (d : Definition) (b ts : List Token)
      → IsDefinition lib d
      → parse_table_constraint lib table (cursor b (table_constraint g n d ts))
        ≡ (some (constraint_of lib (name_of n table) d), cursor (b ++ table_constraint g n d []) ts)
  unfolding parse_table_constraint optional_name is_keyword is_whitespace_token
  parse_table_constraint-table_constraint none table d b ts v = simp (
    storage_laws,
    at_definition,
    at_definition_again,
    no_name,
    constraint_by_kind-definition lib g h,
    v,
    default_name table,
  )
  parse_table_constraint-table_constraint (some n) table d b ts v =
      simp (storage_laws, h, at_definition, constraint_by_kind-definition lib g h, v, one_name)
