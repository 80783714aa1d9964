-- ===== src/Tests/Principals.antt =====
-- The statements on users, roles and permissions: the theorems applied to concrete tokens.
use rust_sqlpackage.Prelude.{ℕ, ◌≡◌, refl, true, false, none, some, List, [], ◌∷◌, arith, codes}
use rust_sqlpackage.Token.{Token, word, comma, is_whitespace_token}
use rust_sqlpackage.TokenParser.{from_tokens, is_keyword, is_word_ci}
use rust_sqlpackage.TokenParser.Cursor.{cursor, AllBlank}
use rust_sqlpackage.Security.User.{parse_create_user, user_options}
use rust_sqlpackage.Security.User.Clauses.{
  Clause, of_login, of_schema, user_tokens, parse_create_user-clauses,
}
use rust_sqlpackage.Security.User.Clauses as Clauses
use rust_sqlpackage.Security.User.Ends.{Ends, user_options-Ends}
use rust_sqlpackage.Security.Role.{parse_alter_role_membership, rolemember_call}
use rust_sqlpackage.Security.Role.Statements.{
  as_word, as_string, exec, membership_tokens, call_tokens, membership-call,
}
use rust_sqlpackage.Security.Permission.{grant, object, no_flags, parse_permission, join_words}
use rust_sqlpackage.Security.Permission.Names.{Part, name_tokens, words}
use rust_sqlpackage.Security.Permission.Targets.{an_object}
use rust_sqlpackage.Security.Permission.Options.{cascading}
use rust_sqlpackage.Security.Permission.Options as Options
use rust_sqlpackage.Security.Permission.Actions.{granting, revoking, action_tokens}
use rust_sqlpackage.Security.Permission.Statements.{
  Statement, IsStatement, statement_tokens, parse_permission-Statement,
}
use rust_sqlpackage.Security.Permission.Several.{parse_permission-comma}
use rust_sqlpackage.Tests.{lib, bare, space}

abbrev gap : ℕ → List Token
gap i = space ∷ []

gap-AllBlank : (i : ℕ) → AllBlank (gap i)
unfolding is_whitespace_token
gap-AllBlank i = (refl, tt)

membership-call_example :
    ((parse_alter_role_membership
        (cursor [] (membership_tokens gap (bare "Sales") true (bare "ann") []))).0
      ≡ some (record { role = codes "Sales"; member = codes "ann"; is_add = true }))
    × ((rolemember_call (
          cursor []
            (call_tokens gap exec true (as_string (codes "Sales")) (as_word (bare "ann")) []))).0
        ≡ (parse_alter_role_membership
            (cursor [] (membership_tokens gap (bare "Sales") true (bare "ann") []))).0)
membership-call_example =
    membership-call gap gap-AllBlank (bare "Sales") (bare "ann") true exec
      (as_string (codes "Sales")) (as_word (bare "ann")) [] [] [] [] refl refl

abbrev clauses : List Clause
clauses = of_login (bare "ann") ∷ of_schema true (bare "app") ∷ []

parse_create_user-clauses_example :
    parse_create_user (cursor [] (user_tokens gap (bare "Ann") clauses)) ≡ (
      some (record {
        name = codes "Ann";
        auth_type = (Clauses.note_all clauses Clauses.unsaid).auth_type;
        default_schema = (Clauses.note_all clauses Clauses.unsaid).default_schema;
      }),
      cursor (user_tokens gap (bare "Ann") clauses) [],
    )
parse_create_user-clauses_example =
    parse_create_user-clauses gap gap-AllBlank (bare "Ann") clauses []

abbrev cut_off : List Token
cut_off = word (bare "FOR") ∷ space ∷ word (bare "LOGIN") ∷ comma ∷ []

user_options-Ends_example : Ends (user_options (from_tokens cut_off))
user_options-Ends_example = user_options-Ends (from_tokens cut_off) (omega arith)

abbrev select : Part
select = record { part = bare "select"; gap = space ∷ [] }

abbrev statement : Statement
statement = record {
  action = granting;
  first = select;
  more = [];
  target = an_object false (some (bare "app")) (bare "Orders");
  is_to = true;
  principal = bare "ann";
  options = Options.granting (space ∷ []) (space ∷ []) (space ∷ []) ∷ cascading [] ∷ [];
}

statement-IsStatement : IsStatement statement
unfolding is_keyword is_word_ci is_whitespace_token
statement-IsStatement = record {
  parts = (refl, (refl, tt), tt);
  no_grant = refl;
  on = (refl, refl);
  spaced = (((refl, tt), (refl, tt), (refl, tt)), (tt, tt));
}

parse_permission-Statement_example :
    parse_permission lib (cursor [] (statement_tokens gap gap statement [])) ≡ (
      some (record {
        action = grant;
        permission = join_words (words lib (select ∷ []));
        target = object (some (codes "app")) (codes "Orders");
        principal = codes "ann";
        with_grant_option = (Options.note_all statement.options no_flags).with_grant_option;
        cascade = (Options.note_all statement.options no_flags).cascade;
      }),
      cursor (statement_tokens gap gap statement []) [],
    )
parse_permission-Statement_example =
    parse_permission-Statement gap gap gap-AllBlank gap-AllBlank lib statement [] []
      statement-IsStatement (record { solid = refl; no_with = refl; no_cascade = refl })

parse_permission-comma_example :
    (parse_permission lib
      (cursor [] (space ∷ action_tokens gap revoking (name_tokens (select ∷ []) (comma ∷ []))))).0
    ≡ none
unfolding is_keyword is_whitespace_token
parse_permission-comma_example =
    parse_permission-comma gap gap-AllBlank lib revoking select [] [] [] (refl, (refl, tt), tt) refl
