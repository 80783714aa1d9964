-- ===== src/Index/Statements.antt =====
-- CREATE INDEX as it is written.
use rust_sqlpackage.Prelude.{
  ℕ, ◌≡◌, Bool, true, false, Option, none, some, List, [], ◌∷◌, ◌++◌, map,
}
use rust_sqlpackage.Token.{
  Token, Word, word, l_paren, r_paren, discriminant, is_whitespace_token, Sqlparser,
}
use rust_sqlpackage.TokenParser.{is_keyword, is_word_ci}
use rust_sqlpackage.TokenParser.Cursor.{cursor, AllBlank}
use rust_sqlpackage.Storage.Partition.{upper, storage_laws}
use rust_sqlpackage.Constraint.Columns.{Ordered, columns_tokens}
use rust_sqlpackage.Constraint.TableName.{
  TableName, table_tokens, qualified, parse_schema_qualified_name-table, skip_whitespace-table_end,
  at_table,
}
use rust_sqlpackage.Index.{clustering}
use rust_sqlpackage.Index.Create.{index_head, parse_create_index}
use rust_sqlpackage.Index.Columns.{index_column_of, parse_column_list-columns}
use rust_sqlpackage.Index.Tail.{
  Included, Predicate, Settings, IsPredicate, IsSettings, tail_tokens, with_tail,
}
use rust_sqlpackage.Index.Leads.{parse_index_options-tail}

abbrev unique_tokens : (ℕ → List Token) → Bool → List Token → List Token
unique_tokens g true ts = upper "UNIQUE" ∷ (g 32 ++ ts)
unique_tokens g false ts = ts

abbrev clustering_word : Bool → Token
clustering_word true = upper "CLUSTERED"
clustering_word false = upper "NONCLUSTERED"

-- From CREATE to the closing parenthesis of the columns, then `ts`; the white space in front of each
-- part is that of `g`.
abbrev pub index_tokens :
    (ℕ → List Token)
    → Bool
    → Bool
    → Word
    → TableName
    → Ordered
    → List Ordered
    → List Token
    → List Token
index_tokens g is_unique is_clustered name t c ds ts =
    g 30
    ++ (upper "CREATE"
        ∷ (g 31
            ++ unique_tokens g is_unique (
                clustering_word is_clustered
                ∷ (g 33
                    ++ (upper "INDEX"
                        ∷ (g 34
                            ++ (word name
                                ∷ (g 35
                                    ++ (upper "ON"
                                        ∷ (g 36
                                            ++ table_tokens g t (
                                                g 37
                                                ++ (l_paren
                                                    ∷ (g 23
                                                        ++ columns_tokens g c ds
                                                            (r_paren ∷ ts))))))))))))))

module _ (lib : Sqlparser) (g : ℕ → List Token) (h : (i : ℕ) → AllBlank (g i)) where
  index_head-tokens :
      (is_unique is_clustered : Bool) (name : Word) (ts : List Token)
      → index_head (
          cursor [] (
            g 30
            ++ (upper "CREATE"
                ∷ (g 31
                    ++ unique_tokens g is_unique (
                        clustering_word is_clustered
                        ∷ (g 33 ++ (upper "INDEX" ∷ (g 34 ++ (word name ∷ ts)))))))))
        ≡ (
          some (is_unique, is_clustered),
          cursor
              (g 30
                ++ (upper "CREATE"
                    ∷ (g 31
                        ++ unique_tokens g is_unique
                            (clustering_word is_clustered ∷ (g 33 ++ (upper "INDEX" ∷ g 34))))))
              (word name ∷ ts),
        )
  unfolding index_head clustering is_keyword is_word_ci is_whitespace_token
  index_head-tokens true true name ts = simp (storage_laws, h)
  index_head-tokens true false name ts = simp (storage_laws, h)
  index_head-tokens false true name ts = simp (storage_laws, h)
  index_head-tokens false false name ts = simp (storage_laws, h)

  -- CREATE, UNIQUE or not, CLUSTERED or NONCLUSTERED, INDEX with a name, ON a table, its
  -- columns each with ASC, DESC or neither, then INCLUDE, WHERE and WITH, each if any, with
  -- any white space at each place up to a semicolon or the end of the tokens, gives all of
  -- these. The predicate begins with a token other than white space and has no WITH and no
  -- semicolon; its text is that of its tokens without white space at its ends. Of the options,
  -- FILLFACTOR with a number of 64 bits, set only up to 100, DATA_COMPRESSION and PAD_INDEX
  -- are applied in order, and another word is passed over with the tokens behind it, which
  -- have no comma and no closing parenthesis.
  pub parse_create_index-index_tokens :
      (is_unique is_clustered : Bool) (name : Word) (t : TableName) (c : Ordered)
      (ds : List Ordered) (i : Included) (p : Predicate) (o : Settings) (e : Option (List Token))
      → IsPredicate p
      → IsSettings o
      → (parse_create_index lib
          (cursor [] (index_tokens g is_unique is_clustered name t c ds (tail_tokens g i p o e)))).0
        ≡ some (
            with_tail lib i p o (record {
              name = name.value;
              table_schema = (qualified t).0;
              table_name = (qualified t).1;
              columns = index_column_of c ∷ map index_column_of ds;
              include_columns = [];
              is_unique = is_unique;
              is_clustered = is_clustered;
              fill_factor = none;
              filter_predicate = none;
              data_compression = none;
              is_padded = false;
            }))
  unfolding parse_create_index is_keyword is_whitespace_token discriminant
  parse_create_index-index_tokens is_unique is_clustered name t c ds i p o e v w = simp (
    storage_laws,
    h,
    index_head-tokens,
    at_table g h,
    parse_schema_qualified_name-table g h,
    skip_whitespace-table_end g h,
    parse_column_list-columns g h,
    parse_index_options-tail lib g h,
    v,
    w,
  )
