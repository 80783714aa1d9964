-- ===== src/Columns/Tables.antt =====
-- The index of a table among the model's elements, as the registry keeps it.
use rust_sqlpackage.Prelude.{
  ℕ, ◌+◌, ◌≡◌, refl, ◌∙◌, inl, inr, Option, none, some, List, [], ◌∷◌, if◌then◌else◌, Bool-cases,
  Text,
}
use rust_sqlpackage.Columns.{
  ModelElement, table, view, raw, other_element, ColumnRegistry, Views, new, key_of, register_table,
  register_tables, register_view, is_view_type, register_element, register_views, from_model,
  get_table_element_index,
}
use rust_sqlpackage.Columns.Maps.{text_eq, lookup, lookup-insert}

abbrev first_some : Option ℕ → Option ℕ → Option ℕ
first_some none o = o
first_some (some n) o = some n

first_some-none : (o : Option ℕ) → first_some o none ≡ o
first_some-none none = refl
first_some-none (some n) = refl

first_some_assoc :
    (o p q : Option ℕ) → first_some (first_some o p) q ≡ first_some o (first_some p q)
first_some_assoc none p q = refl
first_some_assoc (some n) p q = refl

module _ (lib : Views) (key : Text) where
  -- The element at an index is a table with the key.
  abbrev pub table_at : ℕ → ModelElement → Option ℕ
  table_at i (table t) = if text_eq key (key_of lib t.schema t.name) then some i else none
  table_at i _ = none

  -- The index of the last table with the key, counted from the first element's index on.
  unfoldable pub last_table : ℕ → List ModelElement → Option ℕ
  last_table i [] = none
  last_table i (e ∷ es) = first_some (last_table (i + 1) es) (table_at i e)

  register_tables-last_table :
      (i : ℕ) (es : List ModelElement) (r : ColumnRegistry)
      → lookup key (register_tables lib i es r).table_index
        ≡ first_some (last_table i es) (lookup key r.table_index)
  unfolding register_tables last_table register_table
  register_tables-last_table i [] r = refl
  register_tables-last_table i (table t ∷ es) r =
      register_tables-last_table (i + 1) es (register_table lib i t r)
      ∙ elim (Bool-cases (text_eq key (key_of lib t.schema t.name))) [
        | inl h ↦
            rw
              (
                lookup-insert key (key_of lib t.schema t.name) i r.table_index,
                h,
                first_some_assoc (last_table (i + 1) es) (some i) (lookup key r.table_index),
              )
              refl
        | inr h ↦
            rw
              (
                lookup-insert key (key_of lib t.schema t.name) i r.table_index,
                h,
                first_some-none (last_table (i + 1) es),
              )
              refl
      ]
  register_tables-last_table i (view v ∷ es) r =
      register_tables-last_table (i + 1) es r ∙ rw (first_some-none (last_table (i + 1) es))
  register_tables-last_table i (raw e ∷ es) r =
      register_tables-last_table (i + 1) es r ∙ rw (first_some-none (last_table (i + 1) es))
  register_tables-last_table i (other_element ∷ es) r =
      register_tables-last_table (i + 1) es r ∙ rw (first_some-none (last_table (i + 1) es))

-- The second pass leaves the index of the tables as it is.
register_element-table_index :
    (lib : Views) (e : ModelElement) (r : ColumnRegistry)
    → (register_element lib e r).table_index ≡ r.table_index
unfolding register_element register_view
register_element-table_index lib (table t) r = refl
register_element-table_index lib (view v) r = refl
register_element-table_index lib other_element r = refl
register_element-table_index lib (raw e) r = elim (Bool-cases (is_view_type lib e.sql_type)) [
  | inl h ↦ rw h
  | inr h ↦ rw h
]

register_views-table_index :
    (lib : Views) (es : List ModelElement) (r : ColumnRegistry)
    → (register_views lib es r).table_index ≡ r.table_index
unfolding register_views
register_views-table_index lib [] r = refl
register_views-table_index lib (e ∷ es) r =
    register_views-table_index lib es (register_element lib e r)
    ∙ register_element-table_index lib e r

-- For a reference to a table, the registry of a model gives the index of the last of the model's
-- tables whose schema and name are that reference in lower case, and no index where there is none.
pub get_table_element_index-last_table :
    (lib : Views) (elements : List ModelElement) (table_ref : Text)
    → get_table_element_index lib (from_model lib elements) table_ref
      ≡ last_table lib (lib.to_lowercase table_ref) 0 elements
unfolding get_table_element_index from_model lookup
get_table_element_index-last_table lib elements table_ref =
    let key = lib.to_lowercase table_ref in
    rw (register_views-table_index lib elements (register_tables lib 0 elements new)) (
      register_tables-last_table lib key 0 elements new
      ∙ first_some-none (last_table lib key 0 elements))
