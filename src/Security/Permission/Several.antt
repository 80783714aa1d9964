-- ===== src/Security/Permission/Several.antt =====
-- Statements that name several permissions.
use rust_sqlpackage.Prelude.{ℕ, ◌≡◌, false, none, List, [], ◌∷◌, ◌++◌, append-nil}
use rust_sqlpackage.Token.{Token, word, comma, Sqlparser, is_whitespace_token}
use rust_sqlpackage.TokenParser.{is_keyword}
use rust_sqlpackage.TokenParser.Cursor.{cursor, AllBlank}
use rust_sqlpackage.Preprocess.Replace.{attempt_laws}
use rust_sqlpackage.Security.Gap.{skip_whitespace-gap}
use rust_sqlpackage.Security.Permission.{parse_permission, on_target}
use rust_sqlpackage.Security.Permission.Names.{
  Part, AreParts, name_tokens, Stops-comma, parse_permission_name-parts,
}
use rust_sqlpackage.Security.Permission.Actions.{
  Action, action_tokens, parse_action-action, action_solid, skip_whitespace-option_for,
  skip_grant_option_for-option_for,
}

module _ (g : ℕ → List Token) (h : (i : ℕ) → AllBlank (g i)) where
  -- A GRANT, DENY or REVOKE statement with a comma behind its first permission is refused, whatever
  -- follows: only statements with one permission are parsed.
  pub parse_permission-comma :
      (lib : Sqlparser) (a : Action) (p : Part) (ps : List Part) (b ts : List Token)
      → AreParts (p ∷ ps)
      → is_keyword "GRANT" (word p.part) ≡ false
      → (parse_permission lib
          (cursor b (g 4 ++ action_tokens g a (name_tokens (p ∷ ps) (comma ∷ ts))))).0
        ≡ none
  unfolding parse_permission on_target is_whitespace_token name_tokens is_keyword
  parse_permission-comma lib a p ps b ts k e =
      let stop = Stops-comma ts in
      let name = λ (b : List Token). parse_permission_name-parts lib (comma ∷ ts) stop p ps b k in
      let already = λ (b : List Token). skip_whitespace-gap b [] (comma ∷ ts) tt stop.solid in
      simp (
        attempt_laws,
        h,
        action_solid,
        already,
        append-nil,
        parse_action-action,
        e,
        skip_whitespace-option_for g h,
        skip_grant_option_for-option_for g h,
        name,
      )
