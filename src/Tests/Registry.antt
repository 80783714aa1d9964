-- ===== src/Tests/Registry.antt =====
-- The column registry of a small model, and comments: the theorems applied to them.
use rust_sqlpackage.Prelude.{
  ◌≡◌, refl, false, none, List, [], ◌∷◌, map, Text, codes, to_ascii_lowercase,
}
use rust_sqlpackage.Columns.{
  ModelElement, table, view, Views, from_model, get_table_element_index, find_table_with_column,
}
use rust_sqlpackage.Columns.Unique.{Resolved, find_table_with_column-Resolved}
use rust_sqlpackage.Columns.Tables.{last_table, get_table_element_index-last_table}
use rust_sqlpackage.Batches.{scan_comments}
use rust_sqlpackage.Batches.Comments.{opened, closed, all_plain, scan_comments-Scanned}

abbrev views : Views
views = record {
  to_lowercase = map to_ascii_lowercase;
  extract_view_query = λ s. s;
  extract_view_columns_and_deps = λ query bound r.
      (record { name = codes "Total"; source_ref = none; from_select_star = false } ∷ [], []);
}

abbrev orders : ModelElement
orders = table (record {
  schema = codes "dbo";
  name = codes "Orders";
  columns = codes "Id" ∷ codes "Price" ∷ [];
})

abbrev elements : List ModelElement
elements =
    orders
    ∷ view (record {
      schema = codes "dbo";
      name = codes "Sums";
      definition = codes "SELECT";
      is_schema_bound = false;
    })
    ∷ orders
    ∷ []

get_table_element_index-last_table_example :
    get_table_element_index views (from_model views elements) (codes "[dbo].[ORDERS]")
    ≡ last_table views (codes "[dbo].[orders]") 0 elements
get_table_element_index-last_table_example =
    get_table_element_index-last_table views elements (codes "[dbo].[ORDERS]")

abbrev scope : List Text
scope = codes "[dbo].[Sums]" ∷ codes "[dbo].[Orders]" ∷ []

find_table_with_column-Resolved_example :
    Resolved views
      (from_model views elements)
      (codes "price")
      scope
      (find_table_with_column views (codes "price") scope (from_model views elements))
find_table_with_column-Resolved_example =
    find_table_with_column-Resolved views (from_model views elements) (codes "price") scope

scan_comments-Scanned_example : scan_comments false (codes "a /* - */ b") ≡ false
scan_comments-Scanned_example = scan_comments-Scanned (
    opened (codes "a ") (codes " - */ b") (refl, (refl, tt))
      (closed (codes " - ") (codes " b") (refl, (refl, (refl, tt)))
        (all_plain (codes " b") (refl, (refl, tt)))))
