-- ===== src/Tests/Definitions.antt =====
-- Columns, constraints, full-text indexes and extended properties: the theorems applied to concrete
-- tokens.
use rust_sqlpackage.Prelude.{ℕ, ◌≡◌, refl, true, false, none, some, List, [], ◌∷◌, codes, parse_u64}
use mathlib.Core.Option
use rust_sqlpackage.Token.{Token, number, is_whitespace_token}
use rust_sqlpackage.TokenParser.{is_keyword}
use rust_sqlpackage.TokenParser.Cursor.{cursor, AllBlank}
use rust_sqlpackage.TokenParser.Groups.Balanced.{Balanced}
use rust_sqlpackage.Constraint.{parse_alter_table_add_constraint, parse_table_constraint}
use rust_sqlpackage.Constraint.Columns as Keys
use rust_sqlpackage.Constraint.Statements.{foreign_key_def, primary_key_def, constraint_of}
use rust_sqlpackage.Constraint.Statements as Statements
use rust_sqlpackage.Constraint.Table.{
  alter_tokens, table_constraint, name_of, nocheck, parse_alter_table_add_constraint-alter_tokens,
  parse_table_constraint-table_constraint,
}
use rust_sqlpackage.ColumnParser.{parse}
use rust_sqlpackage.ColumnParser.Modifier.{Modifier, unsaid}
use rust_sqlpackage.ColumnParser.Modifier as Modifiers
use rust_sqlpackage.ColumnParser.Regular.{column_definition, default_name, parse-inline_key}
use rust_sqlpackage.FullText.{parse_fulltext_index}
use rust_sqlpackage.FullText.Columns.{Column}
use rust_sqlpackage.FullText.Statements.{index_tokens, manual, parse_fulltext_index-index_tokens}
use rust_sqlpackage.ExtendedProperty.{parse_extended_property, param_name_of}
use rust_sqlpackage.ExtendedProperty.Parameters.{
  Item, parameter, property_name, property_value, a_comma, as_national, as_string, store_all,
  store_item,
}
use rust_sqlpackage.ExtendedProperty.Calls.{
  property_call, sys, parse_extended_property-property_call,
}
use rust_sqlpackage.ExtendedProperty.Calls as Calls
use rust_sqlpackage.Security.Role.Statements.{exec}
use rust_sqlpackage.Tests.{lib, bare, space}

abbrev pub gap : ℕ → List Token
gap i = space ∷ []

pub gap-AllBlank : (i : ℕ) → AllBlank (gap i)
unfolding is_whitespace_token
gap-AllBlank i = (refl, tt)

abbrev name_item : Item
name_item = parameter (bare "@name") property_name (as_national (codes "MS_Description"))

abbrev value_item : Item
value_item = parameter (bare "@value") property_value (as_string (codes "Orders"))

parse_extended_property-property_call_example :
    parse_extended_property lib
      (cursor [] (property_call gap exec sys name_item (a_comma ∷ value_item ∷ []) []))
    ≡ (
      Calls.if_named (store_all (a_comma ∷ value_item ∷ []) (store_item name_item Calls.of_dbo)),
      cursor (property_call gap exec sys name_item (a_comma ∷ value_item ∷ []) []) [],
    )
unfolding param_name_of
parse_extended_property-property_call_example =
    parse_extended_property-property_call lib gap gap-AllBlank exec sys none name_item
      (a_comma ∷ value_item ∷ []) [] (refl, tt, tt) (tt, ((refl, tt, tt), tt))

abbrev customer_key : Statements.Definition
customer_key =
    foreign_key_def (bare "CustomerId") [] (some (bare "app"), bare "Customers") (bare "Id") []

parse_alter_table_add_constraint-alter_tokens_example :
    parse_alter_table_add_constraint lib (
      cursor [] (alter_tokens gap (none, bare "Orders") nocheck (bare "FK_Orders") customer_key []))
    ≡ (
      some (record {
        table_schema = codes "dbo";
        table_name = codes "Orders";
        constraint = constraint_of lib (λ _. codes "FK_Orders") customer_key;
      }),
      cursor (alter_tokens gap (none, bare "Orders") nocheck (bare "FK_Orders") customer_key []) [],
    )
parse_alter_table_add_constraint-alter_tokens_example =
    parse_alter_table_add_constraint-alter_tokens lib gap gap-AllBlank (none, bare "Orders") nocheck
      (bare "FK_Orders") customer_key [] [] tt

abbrev order_key : Statements.Definition
order_key =
    primary_key_def Statements.nonclustered (bare "Id", Keys.desc) ((bare "Line", Keys.unsaid) ∷ [])

parse_table_constraint-table_constraint_example :
    parse_table_constraint lib (codes "Orders") (cursor [] (table_constraint gap none order_key []))
    ≡ (
      some (constraint_of lib (name_of none (codes "Orders")) order_key),
      cursor (table_constraint gap none order_key []) [],
    )
parse_table_constraint-table_constraint_example =
    parse_table_constraint-table_constraint lib gap gap-AllBlank none (codes "Orders") order_key []
      [] tt

abbrev ten : List Token
ten = number (codes "10") false ∷ []

abbrev modifiers : List Modifier
modifiers =
    Modifiers.not_null
    ∷ (Modifiers.named (bare "DF_Code") ∷ (Modifiers.default_number (codes "1") false ∷ []))

parse-inline_key_example :
    Option.map default_name
      (parse lib (
        cursor [] (
          column_definition gap (bare "Id") (bare "int") none none (
            Modifiers.named (bare "PK_Orders")
            ∷ (Modifiers.primary_key unsaid
                ∷ (Modifiers.default_number (codes "1") false ∷ [])))))).0
    ≡ some (some (codes "PK_Orders"), true)
unfolding is_keyword
parse-inline_key_example =
    parse-inline_key lib gap gap-AllBlank (bare "Id") (bare "int") none none (bare "PK_Orders")
      unsaid (codes "1") false refl tt

abbrev title : Column
title = record {
  name = bare "Title";
  number = some (codes "1033", false, 1033);
  type = none;
  semantics = true;
}

parse_fulltext_index-index_tokens_example :
    (parse_fulltext_index (
      cursor [] (
        index_tokens gap
          (some (bare "app"), bare "Docs")
          title
          []
          (bare "PK_Docs")
          (some (bare "Catalog"))
          manual))).0
    ≡ some (record {
      table_schema = codes "app";
      table_name = codes "Docs";
      columns = record { name = codes "Title"; language_id = some 1033 } ∷ [];
      key_index = codes "PK_Docs";
      catalog = some (codes "Catalog");
      change_tracking = some (codes "MANUAL");
    })
unfolding parse_u64
parse_fulltext_index-index_tokens_example =
    parse_fulltext_index-index_tokens gap gap-AllBlank (some (bare "app"), bare "Docs") title []
      (bare "PK_Docs") (some (bare "Catalog")) manual refl
