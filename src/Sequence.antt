-- ===== src/Sequence.antt =====
-- `SequenceTokenParser` of src/parser/sequence_parser.rs: CREATE SEQUENCE and ALTER SEQUENCE.
pub mod Options
pub mod Run
pub mod Ends
use rust_sqlpackage.Prelude.{
  ℕ, zero, suc, Bool, true, false, ◌&&◌, not, if◌then◌else◌, Option, none, some, List, Text, codes,
  ℤ, pos,
}
use rust_sqlpackage.Token.{Token, Keyword, Sqlparser}
use rust_sqlpackage.TokenParser.{
  TokenParser, Parse, exec, require, ◌>>=◌, ◌>>◌, new, from_tokens, is_at_end, advance,
  skip_whitespace, check_keyword, check_word_ci, parse_schema_qualified_name, remaining,
}
use rust_sqlpackage.TokenParser.Literals.{parse_data_type_simple, parse_signed_integer}

pub record TokenParsedSequence : Type 0 where
  pub schema : Text
  pub name : Text
  pub data_type : Option Text
  pub start_value : Option ℤ
  pub increment_value : Option ℤ
  pub min_value : Option ℤ
  pub max_value : Option ℤ
  pub is_cycling : Bool
  pub has_no_min_value : Bool
  pub has_no_max_value : Bool
  pub cache_size : Option ℤ

-- `TokenParsedSequence { schema, name, ..Default::default() }`
abbrev pub named : Text × Text → TokenParsedSequence
named n = record {
  schema = n.0;
  name = n.1;
  data_type = none;
  start_value = none;
  increment_value = none;
  min_value = none;
  max_value = none;
  is_cycling = false;
  has_no_min_value = false;
  has_no_max_value = false;
  cache_size = none;
}

-- The result under construction, with the parser.
abbrev pub Parsing : Type 0
Parsing = TokenParsedSequence × TokenParser

-- `if let Some(value) = attempt { result.field = Some(value); }`
abbrev pub store {ℓ} :
    {A : Type ℓ}
    → (A → TokenParsedSequence → TokenParsedSequence)
    → TokenParsedSequence
    → Option A × TokenParser
    → Parsing
store set r (none, p) = (r, p)
store set r (some a, p) = (set a r, p)

abbrev pub set_data_type : Text → TokenParsedSequence → TokenParsedSequence
set_data_type t r = record r { data_type = some t }

abbrev pub set_start : ℤ → TokenParsedSequence → TokenParsedSequence
set_start v r = record r { start_value = some v }

abbrev pub set_increment : ℤ → TokenParsedSequence → TokenParsedSequence
set_increment v r = record r { increment_value = some v }

abbrev pub set_min : ℤ → TokenParsedSequence → TokenParsedSequence
set_min v r = record r { min_value = some v }

abbrev pub set_max : ℤ → TokenParsedSequence → TokenParsedSequence
set_max v r = record r { max_value = some v }

abbrev pub set_cache : ℤ → TokenParsedSequence → TokenParsedSequence
set_cache v r = record r { cache_size = some v }

abbrev pub set_cycling : Bool → TokenParsedSequence → TokenParsedSequence
set_cycling c r = record r { is_cycling = c }

abbrev pub set_no_min : TokenParsedSequence → TokenParsedSequence
set_no_min r = record r { has_no_min_value = true; min_value = none }

abbrev pub set_no_max : TokenParsedSequence → TokenParsedSequence
set_no_max r = record r { has_no_max_value = true; max_value = none }

-- Behind the current token and the white space that follows it.
abbrev pub past : TokenParser → TokenParser
past p = skip_whitespace (advance p)

-- `WORD value`, and `WORD KEYWORD value`.
abbrev pub value_behind :
    (ℤ → TokenParsedSequence → TokenParsedSequence) → TokenParsedSequence → TokenParser → Parsing
value_behind set r p = store set r (parse_signed_integer (past p))

abbrev pub value_behind_keyword :
    Keyword
    → (ℤ → TokenParsedSequence → TokenParsedSequence)
    → TokenParsedSequence
    → TokenParser
    → Parsing
value_behind_keyword k set r p =
    let q = past p in if check_keyword k q then value_behind set r q else (r, q)

-- Behind `NO`.
unfoldable pub no_option : TokenParsedSequence → TokenParser → Parsing
no_option r p =
    if check_word_ci (codes "MINVALUE") p
    then (set_no_min r, advance p)
    else if check_word_ci (codes "MAXVALUE") p
    then (set_no_max r, advance p)
    else if check_keyword "CYCLE" p
    then (set_cycling false r, advance p)
    else if check_word_ci (codes "CACHE") p
    then (set_cache (pos 0) r, advance p)
    else (r, p)

-- A round of the loop, behind the white space.
unfoldable pub option_at : Sqlparser → Bool → TokenParsedSequence → TokenParser → Parsing
option_at lib is_alter r p =
    if not is_alter && check_keyword "AS" p
    then store set_data_type r (parse_data_type_simple lib (past p))
    else if not is_alter && check_word_ci (codes "START") p
    then value_behind_keyword "WITH" set_start r p
    else if is_alter && check_word_ci (codes "RESTART") p
    then value_behind_keyword "WITH" set_start r p
    else if check_word_ci (codes "INCREMENT") p
    then value_behind_keyword "BY" set_increment r p
    else if check_keyword "NO" p
    then no_option r (past p)
    else if check_word_ci (codes "MINVALUE") p
    then value_behind set_min r p
    else if check_word_ci (codes "MAXVALUE") p
    then value_behind set_max r p
    else if check_keyword "CYCLE" p
    then (set_cycling true r, advance p)
    else if check_word_ci (codes "CACHE") p
    then value_behind set_cache r p
    else (r, advance p)

unfoldable pub options_loop : ℕ → Sqlparser → Bool → TokenParsedSequence → TokenParser → Parsing
options_loop zero lib is_alter r p = (r, p)
options_loop (suc f) lib is_alter r p =
    let q = skip_whitespace p in
    let s = option_at lib is_alter r q in
    let rest = options_loop f lib is_alter s.0 s.1 in
    if is_at_end p then (r, p) else if is_at_end q then (r, q) else rest

-- The fuel is a round for each token that is left.
unfoldable pub parse_sequence_options :
    Sqlparser → Bool → TokenParsedSequence → TokenParser → Parsing
parse_sequence_options lib is_alter r p = options_loop (remaining p) lib is_alter r p

abbrev pub with_options : Sqlparser → Bool → Text × Text → Parse TokenParsedSequence
with_options lib is_alter names p =
    let s = parse_sequence_options lib is_alter (named names) p in (some s.0, s.1)

-- Both statements: only the first keyword differs, and the flag.
abbrev pub parse_sequence : Sqlparser → Keyword → Bool → Parse TokenParsedSequence
parse_sequence lib verb is_alter = do
  exec skip_whitespace
  require (check_keyword verb)
  exec advance
  exec skip_whitespace
  require (check_keyword "SEQUENCE")
  exec advance
  exec skip_whitespace
  names ← parse_schema_qualified_name
  exec skip_whitespace
  with_options lib is_alter names

unfoldable pub parse_create_sequence : Sqlparser → Parse TokenParsedSequence
parse_create_sequence lib = parse_sequence lib "CREATE" false

unfoldable pub parse_alter_sequence : Sqlparser → Parse TokenParsedSequence
parse_alter_sequence lib = parse_sequence lib "ALTER" true

unfoldable pub parse_create_sequence_tokens : Sqlparser → Text → Option TokenParsedSequence
parse_create_sequence_tokens lib sql = elim (new lib sql) [
  | none ↦ none
  | some parser ↦ (parse_create_sequence lib parser).0
]

unfoldable pub parse_alter_sequence_tokens : Sqlparser → Text → Option TokenParsedSequence
parse_alter_sequence_tokens lib sql = elim (new lib sql) [
  | none ↦ none
  | some parser ↦ (parse_alter_sequence lib parser).0
]

unfoldable pub parse_create_sequence_tokens_with_tokens :
    Sqlparser → List Token → Option TokenParsedSequence
parse_create_sequence_tokens_with_tokens lib ts = (parse_create_sequence lib (from_tokens ts)).0

unfoldable pub parse_alter_sequence_tokens_with_tokens :
    Sqlparser → List Token → Option TokenParsedSequence
parse_alter_sequence_tokens_with_tokens lib ts = (parse_alter_sequence lib (from_tokens ts)).0
