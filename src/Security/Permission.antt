-- ===== src/Security/Permission.antt =====
-- GRANT, DENY and REVOKE, of src/parser/security_parser.rs.
pub mod Actions
pub mod Names
pub mod Targets
pub mod Options
pub mod Statements
pub mod Several
use rust_sqlpackage.Prelude.{
  ℕ, zero, suc, ◌+◌, ◌-◌, ◌*◌, ◌^◌, ◌/◌, ◌%◌, ◌≤◌, ◌<◌, min, String, ◌≡◌, refl, sym, ap, ◌∙◌, ◌≢◌,
  ◌↔◌, ◌⊎◌, inl, inr, Bool, true, false, not, ◌&&◌, ◌||◌, Option, none, some, List, [], ◌∷◌, ◌++◌,
  map, append-nil, append_assoc, arith, ltb, leb, ◌==◌, if◌then◌else◌, ltb→lt, lt→ltb, leb→le,
  ==_iff, tests, Bool-cases, Option-cases, length, get_elem?, head?, is_nil, take, drop, take_while,
  drop_while, length-append, take-append-drop, length-take, length-drop, take-take, get_elem?_past,
  take_all, get_elem?-append, drop-append, take-append, take_while-append-drop_while, Text, codes,
  to_ascii_lowercase, to_ascii_uppercase, eq_ignore_ascii_case, is_whitespace, trim_matches, trim,
  ℤ, pos, negsuc, parse_i64, parse_u64, neg_i64,
}
use rust_sqlpackage.Token.{
  Token, word, comma, period, double_colon, eq, single_quoted_string, national_string_literal,
  Sqlparser,
}
use rust_sqlpackage.TokenParser.{
  TokenParser, Parse, pure, fail, exec, asks, require, ◌>>=◌, ◌>>◌, new, from_tokens, advance,
  skip_whitespace, check_keyword, check_word_ci, check_token, parse_identifier, is_at_end,
  current_token, remaining,
}

pub data PermissionAction : Type 0 where
  grant deny revoke : PermissionAction

pub data PermissionTarget : Type 0 where
  object : Option Text → Text → PermissionTarget
  schema : Text → PermissionTarget
  database : PermissionTarget

pub record TokenParsedPermission : Type 0 where
  pub action : PermissionAction
  pub permission : Text
  pub target : PermissionTarget
  pub principal : Text
  pub with_grant_option : Bool
  pub cascade : Bool

-- The words that end a permission's name.
abbrev pub ends_name : TokenParser → Bool
ends_name p = check_keyword "ON" p || check_keyword "TO" p || check_keyword "FROM" p

abbrev pub word_of : Token → Option Text
word_of (word w) = some w.value
word_of _ = none

-- The word at the position, where the loop over the name's words takes one.
unfoldable pub name_word : TokenParser → Option Text
name_word p =
    if is_at_end p || ends_name p
    then none
    else elim (current_token p) [ none ↦ none | some t ↦ word_of t ]

-- A word that is taken moves the parser, so a round for each token is enough.
unfoldable pub name_loop : Sqlparser → ℕ → List Text → TokenParser → List Text × TokenParser
name_loop lib zero parts p = (parts, p)
name_loop lib (suc f) parts p =
    let next = λ (v : Text).
      name_loop lib f (parts ++ lib.to_uppercase v ∷ []) (skip_whitespace (advance p)) in
    elim (name_word p) [ none ↦ (parts, p) | some v ↦ next v ]

-- `join(" ")`
unfoldable pub join_words : List Text → Text
join_words [] = []
join_words (w ∷ []) = w
join_words (w ∷ v ∷ ws) = w ++ b' ' ∷ join_words (v ∷ ws)

unfoldable pub parse_permission_name : Sqlparser → Parse Text
parse_permission_name lib p =
    let r = name_loop lib (remaining p) [] p in
    (if is_nil r.0 then none else some (join_words r.0), r.1)

-- `::`, if it is there
abbrev pub skip_double_colon : Parse (Unit {0})
skip_double_colon = do
  found ← asks (check_token double_colon)
  let skip = do exec advance; exec skip_whitespace
  if found then skip else pure tt

unfoldable pub object_reference : Parse PermissionTarget
object_reference = do
  first ← parse_identifier
  exec skip_whitespace
  dot ← asks (check_token period)
  let qualified = do
    exec advance
    exec skip_whitespace
    second ← parse_identifier
    pure (object (some first) second)
  if dot then qualified else pure (object none first)

unfoldable pub parse_permission_target : Parse PermissionTarget
parse_permission_target = do
  schema_found ← asks (check_word_ci (codes "SCHEMA"))
  object_found ← asks (check_word_ci (codes "OBJECT"))
  let schema_target = do
    exec advance
    exec skip_whitespace
    skip_double_colon
    name ← parse_identifier
    pure (schema name)
  let prefixed = do exec advance; exec skip_whitespace; skip_double_colon; object_reference
  if schema_found then schema_target else if object_found then prefixed else object_reference

unfoldable pub parse_action : Parse PermissionAction
parse_action = do
  is_grant ← asks (check_keyword "GRANT")
  is_deny ← asks (check_word_ci (codes "DENY"))
  is_revoke ← asks (check_word_ci (codes "REVOKE"))
  let past = λ (a : PermissionAction). do exec advance; pure a
  if is_grant
      then past grant
      else if is_deny
      then past deny
      else if is_revoke
      then past revoke
      else fail

abbrev pub is_revoke : PermissionAction → Bool
is_revoke revoke = true
is_revoke _ = false

-- `GRANT OPTION FOR` behind REVOKE, as much of it as is there.
unfoldable pub skip_grant_option_for : PermissionAction → Parse (Unit {0})
skip_grant_option_for action = do
  found ← asks (λ p. is_revoke action && check_keyword "GRANT" p)
  let from_grant = do
    exec advance
    exec skip_whitespace
    option ← asks (check_word_ci (codes "OPTION"))
    let from_option = do
      exec advance
      exec skip_whitespace
      for_found ← asks (check_keyword "FOR")
      let from_for = do exec advance; exec skip_whitespace
      if for_found then from_for else pure tt
    if option then from_option else pure tt
  if found then from_grant else pure tt

-- The optional ON clause.
unfoldable pub on_target : Parse PermissionTarget
on_target = do
  found ← asks (check_keyword "ON")
  let target = do exec advance; exec skip_whitespace; parse_permission_target
  if found then target else pure database

-- The two flags behind the principal.
pub record Flags : Type 0 where
  pub with_grant_option : Bool
  pub cascade : Bool

-- `WITH GRANT OPTION`: whether the round ends there. The words that fit are skipped.
unfoldable pub with_option : TokenParser → Bool × TokenParser
with_option p =
    let q = skip_whitespace (advance p) in
    let r = skip_whitespace (advance q) in
    let s = skip_whitespace (advance r) in
    if check_keyword "WITH" p
    then if check_keyword "GRANT" q
      then if check_word_ci (codes "OPTION") r then (true, s) else (false, r)
      else (false, q)
    else (false, p)

-- The loop over the flags. A round that goes on moves past a token at least.
unfoldable pub flags_loop : ℕ → Flags → TokenParser → Flags × TokenParser
flags_loop zero s p = (s, p)
flags_loop (suc f) s p =
    let r = with_option p in
    let granted = flags_loop f (record s { with_grant_option = true }) r.1 in
    let cascaded = flags_loop f (record s { cascade = true }) (skip_whitespace (advance r.1)) in
    if is_at_end p
    then (s, p)
    else if r.0
    then granted
    else if check_keyword "CASCADE" r.1
    then cascaded
    else (s, r.1)

abbrev pub no_flags : Flags
no_flags = record { with_grant_option = false; cascade = false }

unfoldable pub parse_permission : Sqlparser → Parse TokenParsedPermission
parse_permission lib = do
  exec skip_whitespace
  action ← parse_action
  exec skip_whitespace
  skip_grant_option_for action
  permission ← parse_permission_name lib
  exec skip_whitespace
  target ← on_target
  exec skip_whitespace
  require (λ p. check_keyword "TO" p || check_keyword "FROM" p)
  exec advance
  exec skip_whitespace
  principal ← parse_identifier
  exec skip_whitespace
  flags ← λ p. (let r = flags_loop (remaining p) no_flags p in (some r.0, r.1))
  pure (record {
    action = action;
    permission = permission;
    target = target;
    principal = principal;
    with_grant_option = flags.with_grant_option;
    cascade = flags.cascade;
  })

unfoldable pub parse_permission_tokens : Sqlparser → Text → Option TokenParsedPermission
parse_permission_tokens lib sql = elim (new lib sql) [
  | none ↦ none
  | some parser ↦ (parse_permission lib parser).0
]

unfoldable pub parse_permission_tokens_with_tokens :
    Sqlparser → List Token → Option TokenParsedPermission
parse_permission_tokens_with_tokens lib tokens = (parse_permission lib (from_tokens tokens)).0
