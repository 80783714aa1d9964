-- ===== src/FullText/Statements.antt =====
-- CREATE FULLTEXT INDEX as it is written.
use rust_sqlpackage.Prelude.{
  ℕ, ◌≡◌, refl, false, Option, none, some, List, [], ◌∷◌, ◌++◌, map, append-nil, Text, codes,
}
use rust_sqlpackage.Token.{
  Token, Word, word, l_paren, r_paren, comma, discriminant, is_whitespace_token,
}
use rust_sqlpackage.TokenParser.{TokenParser, is_keyword, is_word_ci, skip_whitespace}
use rust_sqlpackage.TokenParser.Cursor.{
  cursor, AllBlank, head_is, skip_blank, skip_whitespace-cursor, skip_blank-append,
}
use rust_sqlpackage.ColumnParser.Modifier.{skip_blank_again, no_blanks}
use rust_sqlpackage.Storage.Partition.{upper, storage_laws}
use rust_sqlpackage.Constraint.TableName.{
  TableName, table_tokens, qualified, parse_schema_qualified_name-table, skip_whitespace-table_end,
  at_table,
}
use rust_sqlpackage.FullText.{
  parse_fulltext_index, parse_fulltext_with_options, tracking_mode, skip_no_population, on_catalog,
}
use rust_sqlpackage.FullText.Columns.{
  Column, AreColumns, column_of, columns_tokens, parse_fulltext_column_list-columns,
}

-- The mode of change tracking as written, if any.
pub data Tracking : Type 0 where
  auto manual off off_no_population unsaid : Tracking

abbrev mode_tokens : (ℕ → List Token) → List Token → List Token
mode_tokens g ts = g 13 ++ (upper "WITH" ∷ (g 14 ++ (upper "CHANGE_TRACKING" ∷ (g 15 ++ ts))))

-- The clause up to the end of the statement.
abbrev pub tracking_tokens : (ℕ → List Token) → Tracking → List Token
tracking_tokens g auto = mode_tokens g (upper "AUTO" ∷ [])
tracking_tokens g manual = mode_tokens g (upper "MANUAL" ∷ [])
tracking_tokens g off = mode_tokens g (upper "OFF" ∷ [])
tracking_tokens g off_no_population =
    mode_tokens g (
      upper "OFF"
      ∷ (g 18 ++ (comma ∷ (g 19 ++ (upper "NO" ∷ (g 21 ++ (upper "POPULATION" ∷ [])))))))
tracking_tokens g unsaid = []

abbrev pub mode_of : Tracking → Option Text
mode_of auto = some (codes "AUTO")
mode_of manual = some (codes "MANUAL")
mode_of off = some (codes "OFF")
mode_of off_no_population = some (codes "OFF")
mode_of unsaid = none

abbrev pub catalog_tokens : (ℕ → List Token) → Option Word → List Token → List Token
catalog_tokens g none ts = ts
catalog_tokens g (some w) ts = g 11 ++ (upper "ON" ∷ (g 12 ++ (word w ∷ ts)))

abbrev pub catalog_of : Option Word → Option Text
catalog_of none = none
catalog_of (some w) = some w.value

abbrev pub index_tokens :
    (ℕ → List Token) → TableName → Column → List Column → Word → Option Word → Tracking → List Token
index_tokens g t c ds key catalog tracking =
    g 0
    ++ (upper "CREATE"
        ∷ (g 1
            ++ (upper "FULLTEXT"
                ∷ (g 2
                    ++ (upper "INDEX"
                        ∷ (g 3
                            ++ (upper "ON"
                                ∷ (g 4
                                    ++ table_tokens g t (
                                        g 5
                                        ++ (l_paren
                                            ∷ (g 23
                                                ++ columns_tokens g c ds (
                                                    r_paren
                                                    ∷ (g 6
                                                        ++ (upper "KEY"
                                                            ∷ (g 7
                                                            ++ (upper "INDEX"
                                                            ∷ (g 8
                                                            ++ (word key
                                                            ∷ catalog_tokens g catalog (
                                                            tracking_tokens g
                                                            tracking)))))))))))))))))))

module _ (g : ℕ → List Token) (h : (i : ℕ) → AllBlank (g i)) where
  parse_fulltext_with_options-tracking :
      (tr : Tracking) (b : List Token)
      → parse_fulltext_with_options (skip_whitespace (cursor b (tracking_tokens g tr)))
        ≡ (some (mode_of tr), cursor (b ++ tracking_tokens g tr) [])
  unfolding parse_fulltext_with_options tracking_mode skip_no_population is_keyword is_word_ci
      is_whitespace_token discriminant
  parse_fulltext_with_options-tracking auto b = simp (storage_laws, h)
  parse_fulltext_with_options-tracking manual b = simp (storage_laws, h)
  parse_fulltext_with_options-tracking off b =
      simp (storage_laws, h) (simp (storage_laws, skip_whitespace-cursor, append-nil))
  parse_fulltext_with_options-tracking off_no_population b = simp (storage_laws, h)
  parse_fulltext_with_options-tracking unsaid b =
      simp (storage_laws, skip_whitespace-cursor, append-nil)

  -- Where the parser stands behind the catalog: the look for ON takes the white space.
  catalog_end : Option Word → Tracking → List Token → TokenParser
  catalog_end none tr b = skip_whitespace (cursor b (tracking_tokens g tr))
  catalog_end (some w) tr b = cursor (b ++ catalog_tokens g (some w) []) (tracking_tokens g tr)

  not_on : (tr : Tracking) → head_is (is_keyword "ON") (skip_blank (tracking_tokens g tr)) ≡ false
  unfolding is_keyword is_whitespace_token
  not_on unsaid = refl
  not_on auto = rw (skip_blank-append (upper "WITH") _ refl (g 13) (h 13))
  not_on manual = rw (skip_blank-append (upper "WITH") _ refl (g 13) (h 13))
  not_on off = rw (skip_blank-append (upper "WITH") _ refl (g 13) (h 13))
  not_on off_no_population = rw (skip_blank-append (upper "WITH") _ refl (g 13) (h 13))

  on_catalog-catalog :
      (catalog : Option Word) (tr : Tracking) (b : List Token)
      → on_catalog (skip_whitespace (cursor b (catalog_tokens g catalog (tracking_tokens g tr))))
        ≡ (some (catalog_of catalog), catalog_end catalog tr b)
  unfolding on_catalog catalog_end is_keyword is_whitespace_token
  on_catalog-catalog none tr b = simp (storage_laws, skip_whitespace-cursor, not_on)
  on_catalog-catalog (some w) tr b = simp (storage_laws, h)

  skip_whitespace-catalog_end :
      (catalog : Option Word) (tr : Tracking) (b : List Token)
      → skip_whitespace (catalog_end catalog tr b)
        ≡ skip_whitespace (cursor (b ++ catalog_tokens g catalog []) (tracking_tokens g tr))
  unfolding catalog_end
  skip_whitespace-catalog_end none tr b =
      simp (append-nil, skip_whitespace-cursor, skip_blank_again, no_blanks)
  skip_whitespace-catalog_end (some w) tr b = refl

  -- CREATE FULLTEXT INDEX ON a table with its columns, each with LANGUAGE and a number of 64
  -- bits, TYPE COLUMN and a name and STATISTICAL_SEMANTICS or any of these left out, KEY INDEX
  -- with a name, ON with a catalog or not, and WITH CHANGE_TRACKING AUTO, MANUAL, OFF, OFF
  -- with NO POPULATION, or no such clause, with any white space at each place up to the end of
  -- the tokens, gives all of these in order, a language modulo 2^32.
  pub parse_fulltext_index-index_tokens :
      (t : TableName) (c : Column) (ds : List Column) (key : Word) (catalog : Option Word)
      (tracking : Tracking)
      → AreColumns c ds
      → (parse_fulltext_index (cursor [] (index_tokens g t c ds key catalog tracking))).0
        ≡ some (record {
          table_schema = (qualified t).0;
          table_name = (qualified t).1;
          columns = column_of c ∷ map column_of ds;
          key_index = key.value;
          catalog = catalog_of catalog;
          change_tracking = mode_of tracking;
        })
  unfolding parse_fulltext_index is_keyword is_word_ci is_whitespace_token discriminant
  parse_fulltext_index-index_tokens t c ds key catalog tracking k = simp (
    storage_laws,
    h,
    at_table g h,
    parse_schema_qualified_name-table g h,
    skip_whitespace-table_end g h,
    parse_fulltext_column_list-columns g h,
    k,
    on_catalog-catalog,
    skip_whitespace-catalog_end,
    parse_fulltext_with_options-tracking,
  )
