-- ===== src/Constraint/Statements.antt =====
-- The definitions of constraints as they are written.
use rust_sqlpackage.Prelude.{
  ℕ, ◌≡◌, refl, Bool, true, false, some, List, [], ◌∷◌, ◌++◌, map, codes, append-nil, append_assoc,
  is_nil, Text, codes, trim,
}
use rust_sqlpackage.Token.{
  Token, Word, l_paren, r_paren, Sqlparser, discriminant, is_whitespace_token,
}
use rust_sqlpackage.TokenParser.{is_keyword, is_word_ci, skip_whitespace}
use rust_sqlpackage.TokenParser.Cursor.{cursor, AllBlank}
use rust_sqlpackage.TokenParser.Groups.{concat_tokens}
use rust_sqlpackage.TokenParser.Groups.Balanced.{Balanced}
use rust_sqlpackage.TokenParser.Gaps.{aside, aside-AllBlank}
use rust_sqlpackage.Storage.Partition.{upper, storage_laws}
use rust_sqlpackage.Constraint.{
  TokenParsedConstraint, clustering, constraint_by_kind, parse_primary_key_constraint,
  parse_unique_constraint, parse_foreign_key_constraint, parse_check_constraint,
}
use rust_sqlpackage.Constraint.TableName.{
  TableName, table_tokens, qualified, at_table, table_tokens-append,
  parse_schema_qualified_name-table, skip_whitespace-table_end,
}
use rust_sqlpackage.Constraint.Columns.{
  Ordered, column_of, columns_tokens, columns_tokens-append, parse_constraint_column_list-columns,
}
use rust_sqlpackage.Constraint.Names.{
  names_tokens, names_tokens-append, parse_simple_column_list-names,
}
use rust_sqlpackage.Constraint.Expression.{parse_parenthesized_expression-Balanced}

-- CLUSTERED, NONCLUSTERED or neither.
pub data Clustering : Type 0 where
  clustered nonclustered unsaid : Clustering

abbrev pub clustering_tokens : Clustering → List Token → List Token → List Token
clustering_tokens clustered g ts = upper "CLUSTERED" ∷ (g ++ ts)
clustering_tokens nonclustered g ts = upper "NONCLUSTERED" ∷ (g ++ ts)
clustering_tokens unsaid g ts = ts

abbrev pub is_clustered : Bool → Clustering → Bool
is_clustered default clustered = true
is_clustered default nonclustered = false
is_clustered default unsaid = default

pub data Definition : Type 0 where
  primary_key_def unique_def : Clustering → Ordered → List Ordered → Definition
  foreign_key_def : Word → List Word → TableName → Word → List Word → Definition
  check_def : List Token → Definition

abbrev pub columns_group : (ℕ → List Token) → Ordered → List Ordered → List Token → List Token
columns_group g c ds ts = l_paren ∷ (g 23 ++ columns_tokens g c ds (r_paren ∷ ts))

abbrev pub names_group : (ℕ → List Token) → Word → List Word → List Token → List Token
names_group g c ds ts = l_paren ∷ (g 23 ++ names_tokens g c ds (r_paren ∷ ts))

-- The words of the definition; the white space in front of each part is that of `g`.
unfoldable pub definition_tokens : (ℕ → List Token) → Definition → List Token → List Token
definition_tokens g (primary_key_def k c ds) ts =
    upper "PRIMARY"
    ∷ (g 1 ++ (upper "KEY" ∷ (g 2 ++ clustering_tokens k (g 3) (columns_group g c ds ts))))
definition_tokens g (unique_def k c ds) ts =
    upper "UNIQUE" ∷ (g 2 ++ clustering_tokens k (g 3) (columns_group g c ds ts))
definition_tokens g (foreign_key_def c ds t r rs) ts =
    upper "FOREIGN"
    ∷ (g 1
        ++ (upper "KEY"
            ∷ (g 2
                ++ names_group g c ds (
                    g 4
                    ++ (upper "REFERENCES"
                        ∷ (aside g 5
                            ++ table_tokens (aside g) t
                                (aside g 6 ++ names_group (aside g) r rs ts)))))))
definition_tokens g (check_def inside) ts =
    upper "CHECK" ∷ (g 1 ++ (l_paren ∷ (inside ++ (r_paren ∷ ts))))

-- The parentheses of an expression are in balance, and it is not blank.
abbrev pub IsDefinition : Sqlparser → Definition → Type 0
IsDefinition lib (check_def inside) =
    Balanced inside × (is_nil (trim (concat_tokens lib inside)) ≡ false)
IsDefinition lib _ = Unit

abbrev pub values : List Word → List Text
values ws = map (λ (w : Word). w.value) ws

-- What is defined, under the name for its kind.
-- `[schema].[table]`
abbrev in_brackets : Text × Text → Text
in_brackets (schema, table) = codes "[" ++ (schema ++ (codes "].[" ++ (table ++ codes "]")))

unfoldable pub constraint_of : Sqlparser → (Definition → Text) → Definition → TokenParsedConstraint
constraint_of lib n (primary_key_def k c ds) =
    TokenParsedConstraint.primary_key (n (primary_key_def k c ds)) (column_of c ∷ map column_of ds)
      (is_clustered true k)
constraint_of lib n (unique_def k c ds) =
    TokenParsedConstraint.unique (n (unique_def k c ds)) (column_of c ∷ map column_of ds)
      (is_clustered false k)
constraint_of lib n (foreign_key_def c ds t r rs) =
    TokenParsedConstraint.foreign_key (n (foreign_key_def c ds t r rs)) (c.value ∷ values ds)
      (in_brackets (qualified t)) (r.value ∷ values rs)
constraint_of lib n (check_def inside) =
    TokenParsedConstraint.check (n (check_def inside)) (trim (concat_tokens lib inside))

abbrev pub kind_name : Text → Text → Text → Text → Definition → Text
kind_name pk uq fk ck (primary_key_def k c ds) = pk
kind_name pk uq fk ck (unique_def k c ds) = uq
kind_name pk uq fk ck (foreign_key_def c ds t r rs) = fk
kind_name pk uq fk ck (check_def inside) = ck

module _ (lib : Sqlparser) (g : ℕ → List Token) (h : (i : ℕ) → AllBlank (g i)) where
  clustering-tokens :
      (default : Bool) (k : Clustering) (b ts : List Token)
      → clustering default (cursor b (clustering_tokens k (g 3) (l_paren ∷ ts)))
        ≡ (some (is_clustered default k), cursor (b ++ clustering_tokens k (g 3) []) (l_paren ∷ ts))
  unfolding clustering is_keyword is_word_ci is_whitespace_token
  clustering-tokens default clustered b ts = simp (storage_laws, h, append-nil)
  clustering-tokens default nonclustered b ts = simp (storage_laws, h, append-nil)
  clustering-tokens default unsaid b ts = simp (storage_laws, h, append-nil)

  at_clustering :
      (k : Clustering) (b ts : List Token)
      → skip_whitespace (cursor b (g 2 ++ clustering_tokens k (g 3) (l_paren ∷ ts)))
        ≡ cursor (b ++ g 2) (clustering_tokens k (g 3) (l_paren ∷ ts))
  unfolding is_whitespace_token
  at_clustering clustered b ts = simp (storage_laws, h)
  at_clustering nonclustered b ts = simp (storage_laws, h)
  at_clustering unsaid b ts = simp (storage_laws, h)

  clustering_tokens-append :
      (k : Clustering) (ws us ts : List Token)
      → clustering_tokens k ws us ++ ts ≡ clustering_tokens k ws (us ++ ts)
  clustering_tokens-append clustered ws us ts = simp append_assoc
  clustering_tokens-append nonclustered ws us ts = simp append_assoc
  clustering_tokens-append unsaid ws us ts = refl

  -- A definition is read by its first word, under the name for its kind.
  pub constraint_by_kind-definition :
      (pk uq fk ck : Text) (d : Definition) (b ts : List Token)
      → IsDefinition lib d
      → constraint_by_kind lib pk uq fk ck (cursor b (definition_tokens g d ts)) ≡ (
        some (constraint_of lib (kind_name pk uq fk ck) d),
        cursor (b ++ definition_tokens g d []) ts,
      )
  unfolding constraint_by_kind parse_primary_key_constraint parse_unique_constraint
      parse_foreign_key_constraint parse_check_constraint definition_tokens constraint_of is_keyword
      is_whitespace_token discriminant
  constraint_by_kind-definition pk uq fk ck (primary_key_def k c ds) b ts v = simp (
    storage_laws,
    h,
    at_clustering,
    clustering-tokens,
    clustering_tokens-append,
    parse_constraint_column_list-columns g h,
    columns_tokens-append g h,
  )
  constraint_by_kind-definition pk uq fk ck (unique_def k c ds) b ts v = simp (
    storage_laws,
    h,
    at_clustering,
    clustering-tokens,
    clustering_tokens-append,
    parse_constraint_column_list-columns g h,
    columns_tokens-append g h,
  )
  constraint_by_kind-definition pk uq fk ck (foreign_key_def c ds t r rs) b ts v =
      let g' = aside g in
      let h' = aside-AllBlank g h in
      simp (
        storage_laws,
        h,
        parse_simple_column_list-names g h,
        names_tokens-append g h,
        h',
        parse_simple_column_list-names g' h',
        names_tokens-append g' h',
        at_table g' h',
        parse_schema_qualified_name-table g' h',
        skip_whitespace-table_end g' h',
        table_tokens-append g' h',
      )
  constraint_by_kind-definition pk uq fk ck (check_def inside) b ts (bal, e) =
      simp (storage_laws, h, parse_parenthesized_expression-Balanced lib bal e)
