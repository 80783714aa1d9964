-- ===== src/FullText.antt =====
-- `FullTextTokenParser` of src/parser/fulltext_parser.rs: CREATE FULLTEXT INDEX and CATALOG.
pub mod Columns
pub mod Statements
use rust_sqlpackage.Prelude.{
  ℕ, zero, suc, ◌+◌, ◌-◌, ◌*◌, ◌^◌, ◌/◌, ◌%◌, ◌≤◌, ◌<◌, min, String, ◌≡◌, refl, sym, ap, ◌∙◌, ◌≢◌,
  ◌↔◌, ◌⊎◌, inl, inr, Bool, true, false, not, ◌&&◌, ◌||◌, Option, none, some, List, [], ◌∷◌, ◌++◌,
  map, append-nil, append_assoc, arith, ltb, leb, ◌==◌, if◌then◌else◌, ltb→lt, lt→ltb, leb→le,
  ==_iff, tests, Bool-cases, both_true, Option-cases, length, get_elem?, head?, is_nil, take, drop,
  take_while, drop_while, length-append, take-append-drop, length-take, length-drop, take-take,
  get_elem?_past, take_all, get_elem?-append, drop-append, take-append,
  take_while-append-drop_while, Text, codes, to_ascii_lowercase, to_ascii_uppercase,
  eq_ignore_ascii_case, is_whitespace, trim_matches, trim, ℤ, pos, negsuc, parse_i64, parse_u64,
  neg_i64,
}
use rust_sqlpackage.Token.{Token, l_paren, r_paren, comma, Sqlparser}
use rust_sqlpackage.TokenParser.{
  TokenParser, Parse, pure, exec, asks, require, attempt, ◌>>=◌, ◌>>◌, new, from_tokens, advance,
  skip_whitespace, check_keyword, check_word_ci, check_token, remaining, parse_identifier,
  parse_schema_qualified_name,
}
use rust_sqlpackage.TokenParser.Literals.{parse_positive_integer}
use rust_sqlpackage.Constraint.{pass, passed, behind_column, at_list_end, close_list}

pub record TokenParsedFullTextColumn : Type 0 where
  pub name : Text
  pub language_id : Option ℕ

pub record TokenParsedFullTextIndex : Type 0 where
  pub table_schema : Text
  pub table_name : Text
  pub columns : List TokenParsedFullTextColumn
  pub key_index : Text
  pub catalog : Option Text
  pub change_tracking : Option Text

pub record TokenParsedFullTextCatalog : Type 0 where
  pub name : Text
  pub is_default : Bool

-- `lang_id as u32`
abbrev pub as_u32 : Option ℕ → Option ℕ
as_u32 none = none
as_u32 (some n) = some (n % 2 ^ 32)

-- LANGUAGE and a number, if present.
unfoldable pub language : Parse (Option ℕ)
language = do
  found ← passed (check_word_ci (codes "LANGUAGE"))
  let number = do
    lang_id ← attempt parse_positive_integer
    exec skip_whitespace
    pure (as_u32 lang_id)
  if found then number else pure none

-- TYPE COLUMN and a name, if present.
unfoldable pub skip_type_column : Parse (Unit {0})
skip_type_column = do
  found ← passed (check_keyword "TYPE")
  let type = do
    column ← passed (check_word_ci (codes "COLUMN"))
    let name = do skipped ← attempt parse_identifier; exec skip_whitespace
    if column then name else pure tt
  if found then type else pure tt

-- What stands behind a column's name.
unfoldable pub column_options : Text → Parse TokenParsedFullTextColumn
column_options col_name = do
  exec skip_whitespace
  language_id ← language
  skip_type_column
  semantics ← passed (check_word_ci (codes "STATISTICAL_SEMANTICS"))
  pure (record { name = col_name; language_id = language_id })

abbrev pub Listed : Type 0
Listed = List TokenParsedFullTextColumn × TokenParser

-- `None` of the options does not occur: every step of theirs succeeds.
abbrev after_options :
    (List TokenParsedFullTextColumn → TokenParser → Listed)
    → List TokenParsedFullTextColumn
    → Option TokenParsedFullTextColumn × TokenParser
    → Listed
after_options rest columns (none, q) = (columns, q)
after_options rest columns (some c, q) =
    let s = behind_column q in
    if s.0 then rest (columns ++ c ∷ []) s.1 else (columns ++ c ∷ [], s.1)

unfoldable pub columns_loop : ℕ → List TokenParsedFullTextColumn → TokenParser → Listed
columns_loop zero columns p = (columns, p)
columns_loop (suc f) columns p =
    let q = skip_whitespace p in
    if at_list_end p then (columns, p) else elim ((parse_identifier q).0) [
      | none ↦ (columns, (parse_identifier q).1)
      | some n ↦ after_options (columns_loop f) columns (column_options n (parse_identifier q).1)
    ]

unfoldable pub parse_fulltext_column_list : Parse (List TokenParsedFullTextColumn)
parse_fulltext_column_list = do
  pass (check_token l_paren)
  columns ← λ p. (let r = columns_loop (remaining p) [] p in (some r.0, r.1))
  exec close_list
  require (λ p. not (is_nil columns))
  pure columns

-- NO POPULATION behind OFF, with or without a comma, if present.
unfoldable pub skip_no_population : Parse (Unit {0})
skip_no_population = do
  exec skip_whitespace
  skipped ← passed (check_token comma)
  no_word ← passed (check_word_ci (codes "NO"))
  population ← asks (check_word_ci (codes "POPULATION"))
  if no_word && population then exec advance else pure tt

-- The mode behind CHANGE_TRACKING, if it is a known one.
unfoldable pub tracking_mode : Parse (Option Text)
tracking_mode = do
  auto ← asks (check_word_ci (codes "AUTO"))
  manual ← asks (check_word_ci (codes "MANUAL"))
  off ← asks (check_word_ci (codes "OFF"))
  let read_auto = do exec advance; pure (some (codes "AUTO"))
  let read_manual = do exec advance; pure (some (codes "MANUAL"))
  let read_off = do exec advance; skip_no_population; pure (some (codes "OFF"))
  let off_or_none = if off then read_off else pure none
  if auto then read_auto else if manual then read_manual else off_or_none

unfoldable pub parse_fulltext_with_options : Parse (Option Text)
parse_fulltext_with_options = do
  found ← passed (check_keyword "WITH")
  let tracking = do
    named ← passed (check_word_ci (codes "CHANGE_TRACKING"))
    if named then tracking_mode else pure none
  if found then tracking else pure none

-- ON and the name of a catalog, if present.
unfoldable pub on_catalog : Parse (Option Text)
on_catalog = do
  found ← passed (check_keyword "ON")
  if found then attempt parse_identifier else pure none

unfoldable pub parse_fulltext_index : Parse TokenParsedFullTextIndex
parse_fulltext_index = do
  exec skip_whitespace
  pass (check_keyword "CREATE")
  pass (check_word_ci (codes "FULLTEXT"))
  pass (check_keyword "INDEX")
  pass (check_keyword "ON")
  table ← parse_schema_qualified_name
  exec skip_whitespace
  columns ← parse_fulltext_column_list
  exec skip_whitespace
  pass (check_keyword "KEY")
  pass (check_keyword "INDEX")
  key_index ← parse_identifier
  exec skip_whitespace
  catalog ← on_catalog
  exec skip_whitespace
  change_tracking ← parse_fulltext_with_options
  pure (record {
    table_schema = table.0;
    table_name = table.1;
    columns = columns;
    key_index = key_index;
    catalog = catalog;
    change_tracking = change_tracking;
  })

unfoldable pub check_as_default : Parse Bool
check_as_default = do
  found ← passed (check_keyword "AS")
  default ← asks (check_keyword "DEFAULT")
  let yes_default = do exec advance; pure true
  if found && default then yes_default else pure false

unfoldable pub parse_fulltext_catalog : Parse TokenParsedFullTextCatalog
parse_fulltext_catalog = do
  exec skip_whitespace
  pass (check_keyword "CREATE")
  pass (check_word_ci (codes "FULLTEXT"))
  pass (check_word_ci (codes "CATALOG"))
  name ← parse_identifier
  exec skip_whitespace
  is_default ← check_as_default
  pure (record { name = name; is_default = is_default })

abbrev on_text {ℓ} : {A : Type ℓ} → Parse A → Sqlparser → Text → Option A
on_text m lib sql = elim (new lib sql) [ none ↦ none | some parser ↦ (m parser).0 ]

unfoldable pub parse_fulltext_index_tokens : Sqlparser → Text → Option TokenParsedFullTextIndex
parse_fulltext_index_tokens lib = on_text parse_fulltext_index lib

unfoldable pub parse_fulltext_catalog_tokens : Sqlparser → Text → Option TokenParsedFullTextCatalog
parse_fulltext_catalog_tokens lib = on_text parse_fulltext_catalog lib

unfoldable pub parse_fulltext_index_tokens_with_tokens :
    List Token → Option TokenParsedFullTextIndex
parse_fulltext_index_tokens_with_tokens tokens = (parse_fulltext_index (from_tokens tokens)).0

unfoldable pub parse_fulltext_catalog_tokens_with_tokens :
    List Token → Option TokenParsedFullTextCatalog
parse_fulltext_catalog_tokens_with_tokens tokens = (parse_fulltext_catalog (from_tokens tokens)).0
