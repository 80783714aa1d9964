-- ===== src/Security/Role.antt =====
-- Roles and their members, of src/parser/security_parser.rs.
pub mod Statements
use rust_sqlpackage.Prelude.{
  ℕ, zero, suc, ◌+◌, ◌-◌, ◌*◌, ◌^◌, ◌/◌, ◌%◌, ◌≤◌, ◌<◌, min, String, ◌≡◌, refl, sym, ap, ◌∙◌, ◌≢◌,
  ◌↔◌, ◌⊎◌, inl, inr, Bool, true, false, not, ◌&&◌, ◌||◌, Option, none, some, List, [], ◌∷◌, ◌++◌,
  map, append-nil, append_assoc, arith, ltb, leb, ◌==◌, if◌then◌else◌, ltb→lt, lt→ltb, leb→le,
  ==_iff, tests, Bool-cases, Option-cases, length, get_elem?, head?, is_nil, take, drop, take_while,
  drop_while, length-append, take-append-drop, length-take, length-drop, take-take, get_elem?_past,
  take_all, get_elem?-append, drop-append, take-append, take_while-append-drop_while, Text, codes,
  to_ascii_lowercase, to_ascii_uppercase, eq_ignore_ascii_case, is_whitespace, trim_matches, trim,
  ℤ, pos, negsuc, parse_i64, parse_u64, neg_i64,
}
use rust_sqlpackage.Token.{
  Token, word, comma, period, double_colon, eq, single_quoted_string, national_string_literal,
  Sqlparser,
}
use rust_sqlpackage.TokenParser.{
  TokenParser, Parse, pure, fail, exec, asks, require, ◌>>=◌, ◌>>◌, new, from_tokens, advance,
  skip_whitespace, check_keyword, check_word_ci, check_token, parse_identifier, is_at_end,
  current_token, remaining,
}

pub record TokenParsedRole : Type 0 where
  pub name : Text
  pub owner : Option Text

pub record TokenParsedRoleMembership : Type 0 where
  pub role : Text
  pub member : Text
  pub is_add : Bool

-- `AUTHORIZATION owner`
abbrev pub authorization : Parse (Option Text)
authorization = do
  found ← asks (check_word_ci (codes "AUTHORIZATION"))
  let clause = do exec advance; exec skip_whitespace; owner ← parse_identifier; pure (some owner)
  if found then clause else pure none

unfoldable pub parse_create_role : Parse TokenParsedRole
parse_create_role = do
  exec skip_whitespace
  require (check_keyword "CREATE")
  exec advance
  exec skip_whitespace
  require (check_word_ci (codes "ROLE"))
  exec advance
  exec skip_whitespace
  name ← parse_identifier
  exec skip_whitespace
  owner ← authorization
  pure (record { name = name; owner = owner })

-- ADD or DROP
abbrev pub add_or_drop : Parse Bool
add_or_drop = do
  add ← asks (check_keyword "ADD")
  drop_found ← asks (check_keyword "DROP")
  let past = λ (b : Bool). do exec advance; exec skip_whitespace; pure b
  if add then past true else if drop_found then past false else fail

unfoldable pub parse_alter_role_membership : Parse TokenParsedRoleMembership
parse_alter_role_membership = do
  exec skip_whitespace
  require (check_keyword "ALTER")
  exec advance
  exec skip_whitespace
  require (check_word_ci (codes "ROLE"))
  exec advance
  exec skip_whitespace
  role ← parse_identifier
  exec skip_whitespace
  is_add ← add_or_drop
  require (check_word_ci (codes "MEMBER"))
  exec advance
  exec skip_whitespace
  member ← parse_identifier
  pure (record { role = role; member = member; is_add = is_add })

-- A string literal or a name.
unfoldable pub parse_string_or_ident : Parse Text
parse_string_or_ident p = elim (current_token p) [
  | none ↦ (none, p)
  | some t ↦ elim t [
    | single_quoted_string s ↦ (some s, advance p)
    | national_string_literal s ↦ (some s, advance p)
    | _ ↦ parse_identifier p
  ]
]

-- EXEC or EXECUTE, if present.
abbrev pub skip_exec : Parse (Unit {0})
skip_exec = do
  found ← asks (λ p. check_keyword "EXECUTE" p || check_word_ci (codes "EXEC") p)
  let skip = do exec advance; exec skip_whitespace
  if found then skip else pure tt

abbrev pub skip_comma : Parse (Unit {0})
skip_comma = do
  found ← asks (check_token comma)
  let skip = do exec advance; exec skip_whitespace
  if found then skip else pure tt

-- Which procedure is called.
unfoldable pub procedure_found : Parse Bool
procedure_found = do
  add ← asks (check_word_ci (codes "sp_addrolemember"))
  drop_found ← asks (check_word_ci (codes "sp_droprolemember"))
  if add then pure true else if drop_found then pure false else fail

-- What the two entry points have in common.
unfoldable pub rolemember_call : Parse TokenParsedRoleMembership
rolemember_call = do
  exec skip_whitespace
  skip_exec
  is_add ← procedure_found
  exec advance
  exec skip_whitespace
  role ← parse_string_or_ident
  exec skip_whitespace
  skip_comma
  member ← parse_string_or_ident
  pure (record { role = role; member = member; is_add = is_add })

unfoldable pub parse_sp_addrolemember : Sqlparser → Text → Option TokenParsedRoleMembership
parse_sp_addrolemember lib sql = elim (new lib sql) [
  | none ↦ none
  | some parser ↦ (rolemember_call parser).0
]

unfoldable pub parse_sp_addrolemember_with_tokens : List Token → Option TokenParsedRoleMembership
parse_sp_addrolemember_with_tokens tokens = (rolemember_call (from_tokens tokens)).0

unfoldable pub parse_create_role_tokens : Sqlparser → Text → Option TokenParsedRole
parse_create_role_tokens lib sql = elim (new lib sql) [
  | none ↦ none
  | some parser ↦ (parse_create_role parser).0
]

unfoldable pub parse_create_role_tokens_with_tokens : List Token → Option TokenParsedRole
parse_create_role_tokens_with_tokens tokens = (parse_create_role (from_tokens tokens)).0

unfoldable pub parse_alter_role_membership_tokens :
    Sqlparser → Text → Option TokenParsedRoleMembership
parse_alter_role_membership_tokens lib sql = elim (new lib sql) [
  | none ↦ none
  | some parser ↦ (parse_alter_role_membership parser).0
]

unfoldable pub parse_alter_role_membership_tokens_with_tokens :
    List Token → Option TokenParsedRoleMembership
parse_alter_role_membership_tokens_with_tokens tokens =
    (parse_alter_role_membership (from_tokens tokens)).0
