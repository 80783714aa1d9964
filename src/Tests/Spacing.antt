-- ===== src/Tests/Spacing.antt =====
-- Statements in ordinary spacing, token by token: the theorems' descriptions of written statements have
-- them, with the white space that stands at each place.
use rust_sqlpackage.Prelude.{
  ℕ, ◌≡◌, refl, Bool, true, false, ◌||◌, ◌==◌, if◌then◌else◌, none, some, List, [], ◌∷◌, String,
  codes,
}
use rust_sqlpackage.Token.{
  Token, word, comma, l_paren, r_paren, eq, number, national_string_literal,
}
use rust_sqlpackage.TokenParser.Gaps.{later}
use rust_sqlpackage.Constraint.Columns as Keys
use rust_sqlpackage.Constraint.Statements.{Clustering, primary_key_def, definition_tokens}
use rust_sqlpackage.Constraint.Columns.{columns_tokens, column_tokens}
use rust_sqlpackage.ColumnParser.Modifier.{not_null, identity_group, argument_tokens}
use rust_sqlpackage.ColumnParser.Written.{modifiers_tokens}
use rust_sqlpackage.ColumnParser.Regular.{column_definition}
use rust_sqlpackage.ExtendedProperty.Parameters.{
  parameter, a_comma, property_name, property_value, as_national, item_tokens, items_tokens,
}
use rust_sqlpackage.FullText.Columns as FullText
use rust_sqlpackage.Security.User.Clauses.{
  of_none, of_schema, user_tokens, clauses_tokens, clause_tokens,
}
use rust_sqlpackage.Index.With.{unread, compression, setting_tokens, settings_tokens}
use rust_sqlpackage.Tests.{bare, space}

abbrev has : ℕ → List ℕ → Bool
has i [] = false
has i (j ∷ js) = (i == j) || has i js

-- One blank at the places of a list, and nothing at the others.
abbrev blanks_at : List ℕ → ℕ → List Token
blanks_at places i = if has i places then space ∷ [] else []

abbrev w : String → Token
w s = word (bare s)

abbrev digits : String → Token
digits s = number (codes s) false

-- `PRIMARY KEY (A, B DESC)`
key_as_written :
    definition_tokens
      (blanks_at (1 ∷ 2 ∷ 22 ∷ 120 ∷ []))
      (primary_key_def Clustering.unsaid (bare "A", Keys.unsaid) ((bare "B", Keys.desc) ∷ []))
      []
    ≡ w "PRIMARY"
      ∷ space
      ∷ w "KEY"
      ∷ space
      ∷ l_paren
      ∷ w "A"
      ∷ comma
      ∷ space
      ∷ w "B"
      ∷ space
      ∷ w "DESC"
      ∷ r_paren
      ∷ []
unfolding definition_tokens columns_tokens column_tokens later
key_as_written = refl

-- `Id INT NOT NULL IDENTITY(1,1)`
column_as_written :
    column_definition
      (blanks_at (41 ∷ 51 ∷ 1 ∷ 151 ∷ []))
      (bare "Id")
      (bare "INT")
      none
      none
      (not_null ∷ (identity_group (digits "1" ∷ comma ∷ digits "1" ∷ []) ∷ []))
    ≡ w "Id"
      ∷ space
      ∷ w "INT"
      ∷ space
      ∷ w "NOT"
      ∷ space
      ∷ w "NULL"
      ∷ space
      ∷ w "IDENTITY"
      ∷ l_paren
      ∷ digits "1"
      ∷ comma
      ∷ digits "1"
      ∷ r_paren
      ∷ []
unfolding modifiers_tokens argument_tokens later
column_as_written = refl

-- ` @name = N'a', @value = N'b'`
parameters_as_written :
    items_tokens
      (blanks_at (0 ∷ 1 ∷ 2 ∷ 200 ∷ 201 ∷ 202 ∷ []))
      (parameter (bare "@name") property_name (as_national (codes "a"))
        ∷ a_comma
        ∷ parameter (bare "@value") property_value (as_national (codes "b"))
        ∷ [])
      []
    ≡ space
      ∷ w "@name"
      ∷ space
      ∷ eq
      ∷ space
      ∷ national_string_literal (codes "a")
      ∷ comma
      ∷ space
      ∷ w "@value"
      ∷ space
      ∷ eq
      ∷ space
      ∷ national_string_literal (codes "b")
      ∷ []
unfolding items_tokens item_tokens later
parameters_as_written = refl

-- `col1 LANGUAGE 1033, col2`
full_text_as_written :
    FullText.columns_tokens
      (blanks_at (20 ∷ 22 ∷ 24 ∷ []))
      (record {
        name = bare "col1";
        number = some (codes "1033", false, 1033);
        type = none;
        semantics = false;
      })
      (record { name = bare "col2"; number = none; type = none; semantics = false } ∷ [])
      []
    ≡ w "col1" ∷ space ∷ w "LANGUAGE" ∷ space ∷ digits "1033" ∷ comma ∷ space ∷ w "col2" ∷ []
unfolding FullText.columns_tokens FullText.column_tokens later
full_text_as_written = refl

-- `CREATE USER u WITHOUT LOGIN WITH DEFAULT_SCHEMA=dbo`
user_as_written :
    user_tokens
      (blanks_at (5 ∷ 6 ∷ 7 ∷ 0 ∷ 1 ∷ 100 ∷ []))
      (bare "u")
      (of_none ∷ (of_schema true (bare "dbo") ∷ []))
    ≡ w "CREATE"
      ∷ space
      ∷ w "USER"
      ∷ space
      ∷ w "u"
      ∷ space
      ∷ w "WITHOUT"
      ∷ space
      ∷ w "LOGIN"
      ∷ space
      ∷ w "WITH"
      ∷ space
      ∷ w "DEFAULT_SCHEMA"
      ∷ eq
      ∷ w "dbo"
      ∷ []
unfolding clauses_tokens clause_tokens later
user_as_written = refl

-- `MAXDOP = 4, DATA_COMPRESSION=PAGE`
options_as_written :
    settings_tokens
      (blanks_at (43 ∷ []))
      (unread (bare "MAXDOP") (space ∷ eq ∷ space ∷ digits "4" ∷ []))
      (compression (bare "PAGE") ∷ [])
      []
    ≡ w "MAXDOP"
      ∷ space
      ∷ eq
      ∷ space
      ∷ digits "4"
      ∷ comma
      ∷ space
      ∷ w "DATA_COMPRESSION"
      ∷ eq
      ∷ w "PAGE"
      ∷ []
unfolding settings_tokens setting_tokens later
options_as_written = refl
