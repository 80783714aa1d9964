-- ===== src/Security/User.antt =====
-- CREATE USER of src/parser/security_parser.rs.
pub mod Clauses
pub mod Ends
use rust_sqlpackage.Prelude.{
  ℕ, zero, suc, ◌+◌, ◌-◌, ◌*◌, ◌^◌, ◌/◌, ◌%◌, ◌≤◌, ◌<◌, min, String, ◌≡◌, refl, sym, ap, ◌∙◌, ◌≢◌,
  ◌↔◌, ◌⊎◌, inl, inr, Bool, true, false, not, ◌&&◌, ◌||◌, Option, none, some, List, [], ◌∷◌, ◌++◌,
  map, append-nil, append_assoc, arith, ltb, leb, ◌==◌, if◌then◌else◌, ltb→lt, lt→ltb, leb→le,
  ==_iff, tests, Bool-cases, Option-cases, length, get_elem?, head?, is_nil, take, drop, take_while,
  drop_while, length-append, take-append-drop, length-take, length-drop, take-take, get_elem?_past,
  take_all, get_elem?-append, drop-append, take-append, take_while-append-drop_while, Text, codes,
  to_ascii_lowercase, to_ascii_uppercase, eq_ignore_ascii_case, is_whitespace, trim_matches, trim,
  ℤ, pos, negsuc, parse_i64, parse_u64, neg_i64,
}
use rust_sqlpackage.Token.{
  Token, word, comma, period, double_colon, eq, single_quoted_string, national_string_literal,
  Sqlparser,
}
use rust_sqlpackage.TokenParser.{
  TokenParser, Parse, pure, fail, exec, asks, require, ◌>>=◌, ◌>>◌, new, from_tokens, advance,
  skip_whitespace, check_keyword, check_word_ci, check_token, parse_identifier, is_at_end,
  current_token, remaining,
}

pub data UserAuthType : Type 0 where
  login : Text → UserAuthType
  without_login : UserAuthType
  external_provider : UserAuthType
  default : UserAuthType

-- What the loop over the clauses fills in.
pub record UserOptions : Type 0 where
  pub auth_type : UserAuthType
  pub default_schema : Option Text

pub record TokenParsedUser : Type 0 where
  pub name : Text
  pub auth_type : UserAuthType
  pub default_schema : Option Text

-- A block of the loop: the options if it ends with `continue`, nothing if the next block is tried.
abbrev pub Block : Type 0
Block = Parse (Option UserOptions)

abbrev pub next_block : Block
next_block = pure none

-- `FOR LOGIN login`
unfoldable pub for_login : UserOptions → Block
for_login s = do
  found ← asks (check_keyword "FOR")
  let block = do
    exec advance
    exec skip_whitespace
    login_found ← asks (check_word_ci (codes "LOGIN"))
    let taken = do
      exec advance
      exec skip_whitespace
      name ← parse_identifier
      exec skip_whitespace
      pure (some (record s { auth_type = login name }))
    if login_found then taken else next_block
  if found then block else next_block

unfoldable pub without : UserOptions → Block
without s = do
  found ← asks (check_word_ci (codes "WITHOUT"))
  let block = do
    exec advance
    exec skip_whitespace
    login_found ← asks (check_word_ci (codes "LOGIN"))
    let taken = do
      exec advance
      exec skip_whitespace
      pure (some (record s { auth_type = without_login }))
    if login_found then taken else next_block
  if found then block else next_block

-- `FROM EXTERNAL PROVIDER`
unfoldable pub from_external : UserOptions → Block
from_external s = do
  found ← asks (check_keyword "FROM")
  let block = do
    exec advance
    exec skip_whitespace
    external ← asks (check_word_ci (codes "EXTERNAL"))
    let inner = do
      exec advance
      exec skip_whitespace
      provider ← asks (check_word_ci (codes "PROVIDER"))
      let taken = do
        exec advance
        exec skip_whitespace
        pure (some (record s { auth_type = external_provider }))
      if provider then taken else next_block
    if external then inner else next_block
  if found then block else next_block

-- The optional equals sign.
abbrev pub skip_eq : Parse (Unit {0})
skip_eq = do
  found ← asks (check_token eq)
  let skip = do exec advance; exec skip_whitespace
  if found then skip else pure tt

-- `WITH DEFAULT_SCHEMA = schema`
unfoldable pub with_default_schema : UserOptions → Block
with_default_schema s = do
  found ← asks (check_keyword "WITH")
  let block = do
    exec advance
    exec skip_whitespace
    schema_found ← asks (check_word_ci (codes "DEFAULT_SCHEMA"))
    let taken = do
      exec advance
      exec skip_whitespace
      skip_eq
      schema ← parse_identifier
      exec skip_whitespace
      pure (some (record s { default_schema = some schema }))
    if schema_found then taken else next_block
  if found then block else next_block

-- One block, and what comes where it does not `continue`.
unfoldable pub or_else : Block → Parse UserOptions → Parse UserOptions
or_else block otherwise = do taken ← block; elim taken [ none ↦ otherwise | some s ↦ pure s ]

-- A round of the loop; at the end of its body a token that is not known is skipped.
unfoldable pub user_round : UserOptions → Parse UserOptions
user_round s = or_else (for_login s) (
    or_else (without s)
      (or_else (from_external s) (or_else (with_default_schema s) (do exec advance; pure s))))

unfoldable pub user_loop : ℕ → UserOptions → Parse UserOptions
user_loop zero s = pure s
user_loop (suc f) s = do
  at_end ← asks is_at_end
  let next = do s' ← user_round s; user_loop f s'
  if at_end then pure s else next

abbrev pub no_options : UserOptions
no_options = record { auth_type = default; default_schema = none }

-- The loop, with a round for each token that is left.
unfoldable pub user_options : Parse UserOptions
user_options p = user_loop (remaining p) no_options p

unfoldable pub parse_create_user : Parse TokenParsedUser
parse_create_user = do
  exec skip_whitespace
  require (check_keyword "CREATE")
  exec advance
  exec skip_whitespace
  require (check_word_ci (codes "USER"))
  exec advance
  exec skip_whitespace
  name ← parse_identifier
  exec skip_whitespace
  s ← user_options
  pure (record { name = name; auth_type = s.auth_type; default_schema = s.default_schema })

unfoldable pub parse_create_user_tokens : Sqlparser → Text → Option TokenParsedUser
parse_create_user_tokens lib sql = elim (new lib sql) [
  | none ↦ none
  | some parser ↦ (parse_create_user parser).0
]

unfoldable pub parse_create_user_tokens_with_tokens : List Token → Option TokenParsedUser
parse_create_user_tokens_with_tokens tokens = (parse_create_user (from_tokens tokens)).0
