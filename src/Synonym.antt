-- ===== src/Synonym.antt =====
-- `SynonymTokenParser` of src/parser/synonym_parser.rs: CREATE SYNONYM.
pub mod Target
pub mod Create
use rust_sqlpackage.Prelude.{
  ℕ, zero, suc, Bool, true, false, not, if◌then◌else◌, Option, none, some, List, [], ◌∷◌, ◌++◌,
  Text, codes,
}
use rust_sqlpackage.Token.{Token, period, Sqlparser}
use rust_sqlpackage.TokenParser.{
  TokenParser, Parse, exec, require, ◌>>=◌, ◌>>◌, new, from_tokens, advance, skip_whitespace,
  check_keyword, check_word_ci, check_token, parse_identifier, parse_schema_qualified_name,
  remaining,
}

pub record TokenParsedSynonym : Type 0 where
  pub schema : Text
  pub name : Text
  pub target_schema : Text
  pub target_name : Text
  pub target_database : Option Text
  pub target_server : Option Text

-- The loop that reads `.identifier` parts behind the first one. A round that goes on moves past two
-- tokens at least.
unfoldable pub multi_part_loop : ℕ → List Text → Parse (List Text)
multi_part_loop zero parts p = (some parts, p)
multi_part_loop (suc f) parts p =
    let next = λ (ident : Text) (r : TokenParser). multi_part_loop f (parts ++ ident ∷ []) r in
    let q = skip_whitespace p in
    let r = parse_identifier (skip_whitespace (advance q)) in
    if not (check_token period q)
    then (some parts, q)
    else elim r.0 [ none ↦ (some parts, r.1) | some ident ↦ next ident r.1 ]

-- The rounds start with as much fuel as there are tokens left.
abbrev pub more_parts : List Text → Parse (List Text)
more_parts parts p = multi_part_loop (remaining p) parts p

unfoldable pub parse_multi_part_name : Parse (List Text)
parse_multi_part_name = do first ← parse_identifier; more_parts (first ∷ [])

-- `match parts.len()`
unfoldable pub synonym_of : Text → Text → List Text → Option TokenParsedSynonym
synonym_of schema name (n ∷ []) = some (record {
  schema = schema;
  name = name;
  target_schema = codes "dbo";
  target_name = n;
  target_database = none;
  target_server = none;
})
synonym_of schema name (s ∷ n ∷ []) = some (record {
  schema = schema;
  name = name;
  target_schema = s;
  target_name = n;
  target_database = none;
  target_server = none;
})
synonym_of schema name (d ∷ s ∷ n ∷ []) = some (record {
  schema = schema;
  name = name;
  target_schema = s;
  target_name = n;
  target_database = some d;
  target_server = none;
})
synonym_of schema name (v ∷ d ∷ s ∷ n ∷ []) = some (record {
  schema = schema;
  name = name;
  target_schema = s;
  target_name = n;
  target_database = some d;
  target_server = some v;
})
synonym_of schema name _ = none

unfoldable pub parse_create_synonym : Parse TokenParsedSynonym
parse_create_synonym = do
  exec skip_whitespace
  require (check_keyword "CREATE")
  exec advance
  exec skip_whitespace
  require (check_word_ci (codes "SYNONYM"))
  exec advance
  exec skip_whitespace
  names ← parse_schema_qualified_name
  exec skip_whitespace
  require (check_keyword "FOR")
  exec advance
  exec skip_whitespace
  parts ← parse_multi_part_name
  λ p. (synonym_of names.0 names.1 parts, p)

unfoldable pub parse_create_synonym_tokens : Sqlparser → Text → Option TokenParsedSynonym
parse_create_synonym_tokens lib sql = elim (new lib sql) [
  | none ↦ none
  | some parser ↦ (parse_create_synonym parser).0
]

unfoldable pub parse_create_synonym_tokens_with_tokens : List Token → Option TokenParsedSynonym
parse_create_synonym_tokens_with_tokens ts = (parse_create_synonym (from_tokens ts)).0
