-- ===== src/Index/Create.antt =====
-- `parse_create_index`: whole CREATE INDEX statements.
use rust_sqlpackage.Prelude.{Bool, false, Option, none, some, List, [], Text}
use rust_sqlpackage.Token.{Token, Sqlparser}
use rust_sqlpackage.TokenParser.{
  Parse, pure, exec, ◌>>=◌, ◌>>◌, new, from_tokens, skip_whitespace, check_keyword,
  parse_identifier, parse_schema_qualified_name,
}
use rust_sqlpackage.Constraint.{pass, passed}
use rust_sqlpackage.Index.{TokenParsedIndex, clustering, parse_column_list}
use rust_sqlpackage.Index.Options.{parse_index_options}

-- CREATE, UNIQUE or not, CLUSTERED or NONCLUSTERED, and INDEX: whether the index is unique, and whether
-- it is clustered.
unfoldable pub index_head : Parse (Bool × Bool)
index_head = do
  exec skip_whitespace
  pass (check_keyword "CREATE")
  is_unique ← passed (check_keyword "UNIQUE")
  clustered ← clustering
  pass (check_keyword "INDEX")
  is_clustered ← λ p. (clustered, p)
  pure (is_unique, is_clustered)

unfoldable pub parse_create_index : Sqlparser → Parse TokenParsedIndex
parse_create_index lib = do
  head ← index_head
  name ← parse_identifier
  exec skip_whitespace
  pass (check_keyword "ON")
  table ← parse_schema_qualified_name
  exec skip_whitespace
  columns ← parse_column_list
  exec skip_whitespace
  let result : TokenParsedIndex = record {
    name = name;
    table_schema = table.0;
    table_name = table.1;
    columns = columns;
    include_columns = [];
    is_unique = head.0;
    is_clustered = head.1;
    fill_factor = none;
    filter_predicate = none;
    data_compression = none;
    is_padded = false;
  }
  λ p. (let r = parse_index_options lib result p in (some r.0, r.1))

abbrev on_text {ℓ} : {A : Type ℓ} → Parse A → Sqlparser → Text → Option A
on_text m lib sql = elim (new lib sql) [ none ↦ none | some parser ↦ (m parser).0 ]

unfoldable pub parse_create_index_tokens : Sqlparser → Text → Option TokenParsedIndex
parse_create_index_tokens lib = on_text (parse_create_index lib) lib

unfoldable pub parse_create_index_tokens_with_tokens :
    Sqlparser → List Token → Option TokenParsedIndex
parse_create_index_tokens_with_tokens lib tokens = (parse_create_index lib (from_tokens tokens)).0
