-- ===== src/Index/Columnstore.antt =====
-- `parse_create_columnstore_index`.
use rust_sqlpackage.Prelude.{
  ℕ, zero, suc, Bool, not, ◌&&◌, Option, none, some, List, [], if◌then◌else◌, Text, codes,
}
use rust_sqlpackage.Token.{Token, l_paren, semi_colon, Sqlparser}
use rust_sqlpackage.TokenParser.{
  TokenParser, Parse, pure, exec, ◌>>=◌, ◌>>◌, new, from_tokens, advance, skip_whitespace,
  check_keyword, check_word_ci, check_token, is_at_end, remaining, parse_identifier,
  parse_schema_qualified_name,
}
use rust_sqlpackage.Constraint.{pass, at_list_end, close_list}
use rust_sqlpackage.Index.{TokenParsedColumnstoreIndex, clustering, parse_simple_column_list}
use rust_sqlpackage.Index.Predicate.{parse_filter_predicate}
use rust_sqlpackage.Index.Options.{skip_to_comma_or_paren, compression_option}

-- `unwrap_or_default()`
abbrev pub or_empty {ℓ} : {A : Type ℓ} → Option (List A) → List A
or_empty none = []
or_empty (some xs) = xs

abbrev pub upper_case : Sqlparser → Option Text → Option Text
upper_case lib none = none
upper_case lib (some compression) = some (lib.to_uppercase compression)

-- The WITH clause of a columnstore index, of which only DATA_COMPRESSION is read.
unfoldable pub columnstore_option : Sqlparser → Parse (Option Text)
columnstore_option lib p =
    if check_word_ci (codes "DATA_COMPRESSION") p
    then (◌>>=◌ compression_option (λ c. pure (upper_case lib c))) p
    else (some none, p)

-- A later value replaces an earlier one.
abbrev pub later {ℓ} : {A : Type ℓ} → Option A → Option A → Option A
later old none = old
later old (some a) = some a

abbrev after_columnstore :
    (Option Text → TokenParser → Option Text × TokenParser)
    → Option Text
    → Option (Option Text) × TokenParser
    → Option Text × TokenParser
after_columnstore rest old (none, q) = (old, q)
after_columnstore rest old (some c, q) = rest (later old c) (skip_to_comma_or_paren q)

unfoldable pub columnstore_with_loop :
    Sqlparser → ℕ → Option Text → TokenParser → Option Text × TokenParser
columnstore_with_loop lib zero compression p = (compression, p)
columnstore_with_loop lib (suc f) compression p =
    let q = skip_whitespace p in
    let next =
      after_columnstore (columnstore_with_loop lib f) compression (columnstore_option lib q) in
    if at_list_end p then (compression, p) else next

-- WITH and its options.
unfoldable pub columnstore_with : Sqlparser → Option Text → TokenParser → Option Text × TokenParser
columnstore_with lib compression p =
    let q = skip_whitespace (advance p) in
    let (c, s) = columnstore_with_loop lib (remaining q) compression q in
    if check_token l_paren p then (c, close_list s) else (compression, p)

abbrev pub Clauses : Type 0
Clauses = Option Text × Option Text

-- WHERE and WITH, with the predicate and the compression found.
unfoldable pub columnstore_loop : Sqlparser → ℕ → Clauses → TokenParser → Clauses × TokenParser
columnstore_loop lib zero found p = (found, p)
columnstore_loop lib (suc f) found p =
    let q = skip_whitespace p in
    let behind = skip_whitespace (advance q) in
    let (predicate, s) = parse_filter_predicate lib behind in
    let (compression, t) = columnstore_with lib found.1 behind in
    let next : Clauses × TokenParser =
      if check_keyword "WHERE" q
      then ((later found.0 predicate, found.1), s)
      else if check_keyword "WITH" q
      then ((found.0, compression), t)
      else (found, advance q) in
    let rest = columnstore_loop lib f next.0 next.1 in
    if is_at_end p
    then (found, p)
    else if is_at_end q
    then (found, q)
    else if check_token semi_colon q
    then (found, q)
    else rest

-- The columns, which only a nonclustered index has.
unfoldable pub columnstore_columns : Bool → Parse (List Text)
columnstore_columns is_clustered p =
    let (columns, q) = parse_simple_column_list p in
    if not is_clustered && check_token l_paren p then (some (or_empty columns), q) else (some [], p)

unfoldable pub parse_create_columnstore_index : Sqlparser → Parse TokenParsedColumnstoreIndex
parse_create_columnstore_index lib = do
  exec skip_whitespace
  pass (check_keyword "CREATE")
  clustered ← clustering
  is_clustered ← λ p. (clustered, p)
  pass (check_word_ci (codes "COLUMNSTORE"))
  pass (check_keyword "INDEX")
  name ← parse_identifier
  exec skip_whitespace
  pass (check_keyword "ON")
  table ← parse_schema_qualified_name
  exec skip_whitespace
  columns ← columnstore_columns is_clustered
  exec skip_whitespace
  found ← λ p. (let r = columnstore_loop lib (remaining p) (none, none) p in (some r.0, r.1))
  pure (record {
    name = name;
    table_schema = table.0;
    table_name = table.1;
    is_clustered = is_clustered;
    columns = columns;
    data_compression = found.1;
    filter_predicate = found.0;
  })

abbrev on_text {ℓ} : {A : Type ℓ} → Parse A → Sqlparser → Text → Option A
on_text m lib sql = elim (new lib sql) [ none ↦ none | some parser ↦ (m parser).0 ]

unfoldable pub parse_create_columnstore_index_tokens :
    Sqlparser → Text → Option TokenParsedColumnstoreIndex
parse_create_columnstore_index_tokens lib = on_text (parse_create_columnstore_index lib) lib

unfoldable pub parse_create_columnstore_index_tokens_with_tokens :
    Sqlparser → List Token → Option TokenParsedColumnstoreIndex
parse_create_columnstore_index_tokens_with_tokens lib tokens =
    (parse_create_columnstore_index lib (from_tokens tokens)).0
