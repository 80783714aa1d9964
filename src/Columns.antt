-- ===== src/Columns.antt =====
-- src/dacpac/model_xml/column_registry.rs: which table or view in scope has a column. The model's
-- elements have here the fields that the registry reads; the extraction of a view's columns, of
-- view_writer.rs, is the parameter Views.
pub mod Maps
pub mod Unique
pub mod Tables
use rust_sqlpackage.Prelude.{
  ℕ, zero, suc, ◌+◌, ◌-◌, ◌*◌, ◌^◌, ◌/◌, ◌%◌, ◌≤◌, ◌<◌, min, String, ◌≡◌, refl, sym, ap, ◌∙◌, ◌≢◌,
  ◌↔◌, ◌⊎◌, inl, inr, Bool, true, false, not, ◌&&◌, ◌||◌, Option, none, some, List, [], ◌∷◌, ◌++◌,
  map, append-nil, append_assoc, arith, ltb, leb, ◌==◌, if◌then◌else◌, ltb→lt, lt→ltb, leb→le,
  ==_iff, tests, Bool-cases, Option-cases, length, get_elem?, head?, is_nil, take, drop, take_while,
  drop_while, length-append, take-append-drop, length-take, length-drop, take-take, get_elem?_past,
  take_all, get_elem?-append, drop-append, take-append, take_while-append-drop_while, Text, codes,
  to_ascii_lowercase, to_ascii_uppercase, eq_ignore_ascii_case, is_whitespace, trim_matches, trim,
  ℤ, pos, negsuc, parse_i64, parse_u64, neg_i64,
}
use rust_sqlpackage.Util.{any, contains_ci}
use Maps.{text_eq, lookup, insert, has_text, add_text}

pub record TableElement : Type 0 where
  pub schema : Text
  pub name : Text
  pub columns : List Text

pub record ViewElement : Type 0 where
  pub schema : Text
  pub name : Text
  pub definition : Text
  pub is_schema_bound : Bool

pub record RawElement : Type 0 where
  pub schema : Text
  pub name : Text
  pub sql_type : Text
  pub definition : Text

pub data ModelElement : Type 0 where
  table : TableElement → ModelElement
  view : ViewElement → ModelElement
  raw : RawElement → ModelElement
  other_element : ModelElement

pub record ViewColumn : Type 0 where
  pub name : Text
  pub source_ref : Option Text
  pub from_select_star : Bool

pub record ViewExtractionResult : Type 0 where
  pub query_script : Text
  pub columns : List ViewColumn
  pub query_deps : List Text

-- A hash map is a list of entries, of which the first with a key counts.
pub record ColumnRegistry : Type 0 where
  pub table_columns : List (Text × List Text)
  pub views_with_wildcard : List Text
  pub view_cache : List (Text × ViewExtractionResult)
  pub table_index : List (Text × ℕ)

-- `str::to_lowercase`, and of view_writer.rs extract_view_query and extract_view_columns_and_deps,
-- for the model and the default schema at hand.
pub record Views : Type 0 where
  pub to_lowercase : Text → Text
  pub extract_view_query : Text → Text
  pub extract_view_columns_and_deps : Text → Bool → ColumnRegistry → List ViewColumn × List Text

abbrev pub new : ColumnRegistry
new = record { table_columns = []; views_with_wildcard = []; view_cache = []; table_index = [] }

module _ (lib : Views) where
  -- `format!("[{}].[{}]", schema, name).to_lowercase()`
  unfoldable pub key_of : Text → Text → Text
  key_of schema name = lib.to_lowercase (b'[' ∷ schema ++ codes "].[" ++ name ++ codes "]")

  -- The first pass, from the index of its first element on.
  unfoldable pub register_table : ℕ → TableElement → ColumnRegistry → ColumnRegistry
  register_table idx t r =
      let table_key = key_of t.schema t.name in
      record r {
        table_columns = insert table_key (map lib.to_lowercase t.columns) r.table_columns;
        table_index = insert table_key idx r.table_index;
      }

  unfoldable pub register_tables : ℕ → List ModelElement → ColumnRegistry → ColumnRegistry
  register_tables idx [] r = r
  register_tables idx (table t ∷ es) r = register_tables (idx + 1) es (register_table idx t r)
  register_tables idx (view v ∷ es) r = register_tables (idx + 1) es r
  register_tables idx (raw e ∷ es) r = register_tables (idx + 1) es r
  register_tables idx (other_element ∷ es) r = register_tables (idx + 1) es r

  -- What both kinds of views have in common.
  unfoldable pub register_view : Text → Text → Bool → ColumnRegistry → ColumnRegistry
  register_view view_key definition is_schema_bound r =
      let query_script = lib.extract_view_query definition in
      let extracted = lib.extract_view_columns_and_deps query_script is_schema_bound r in
      let has_wildcard = any (λ c. c.from_select_star) extracted.0 in
      record {
        table_columns =
            insert view_key (map (λ c. lib.to_lowercase c.name) extracted.0) r.table_columns;
        views_with_wildcard =
            if has_wildcard then add_text view_key r.views_with_wildcard else r.views_with_wildcard;
        view_cache =
            insert view_key
              (record {
                query_script = query_script;
                columns = extracted.0;
                query_deps = extracted.1;
              })
              r.view_cache;
        table_index = r.table_index;
      }

  abbrev pub is_view_type : Text → Bool
  is_view_type sql_type = text_eq sql_type (codes "SqlView")

  unfoldable pub raw_is_schema_bound : Text → Bool
  raw_is_schema_bound definition =
      contains_ci definition (codes "WITH SCHEMABINDING")
      || contains_ci definition (codes ", SCHEMABINDING")
      || contains_ci definition (codes ",SCHEMABINDING")

  -- One element in the second pass.
  unfoldable pub register_element : ModelElement → ColumnRegistry → ColumnRegistry
  register_element (view v) r =
      register_view (key_of v.schema v.name) v.definition v.is_schema_bound r
  register_element (raw e) r =
      if is_view_type e.sql_type
      then register_view (key_of e.schema e.name) e.definition (raw_is_schema_bound e.definition) r
      else r
  register_element (table t) r = r
  register_element other_element r = r

  unfoldable pub register_views : List ModelElement → ColumnRegistry → ColumnRegistry
  register_views [] r = r
  register_views (e ∷ es) r = register_views es (register_element e r)

  unfoldable pub from_model : List ModelElement → ColumnRegistry
  from_model elements = register_views elements (register_tables 0 elements new)

  unfoldable pub get_cached_view : ColumnRegistry → Text → Option ViewExtractionResult
  get_cached_view r view_key = lookup (lib.to_lowercase view_key) r.view_cache

  unfoldable pub get_table_element_index : ColumnRegistry → Text → Option ℕ
  get_table_element_index r table_ref = lookup (lib.to_lowercase table_ref) r.table_index

  unfoldable pub table_has_column : ColumnRegistry → Text → Text → Bool
  table_has_column r table_ref column = elim (lookup (lib.to_lowercase table_ref) r.table_columns) [
    | none ↦ false
    | some cols ↦ has_text (lib.to_lowercase column) cols
  ]

  abbrev pub table_count : ColumnRegistry → ℕ
  table_count r = length r.table_columns

  unfoldable pub view_has_wildcard : ColumnRegistry → Text → Bool
  view_has_wildcard r view_ref = has_text (lib.to_lowercase view_ref) r.views_with_wildcard

  -- The filter of `find_tables_with_column`, whose test is that of `table_has_column`.
  unfoldable pub find_tables_with_column : ColumnRegistry → Text → List Text → List Text
  find_tables_with_column r column [] = []
  find_tables_with_column r column (t ∷ ts) =
      let rest = find_tables_with_column r column ts in
      if table_has_column r t column then t ∷ rest else rest

  unfoldable pub find_table_with_column : Text → List Text → ColumnRegistry → Option Text
  find_table_with_column column tables_in_scope r =
      elim (find_tables_with_column r column tables_in_scope) [
        | [] ↦ none
        | t ∷ ts ↦ if is_nil ts then some t else none
      ]
