-- ===== src/ColumnParser.antt =====
-- `ColumnTokenParser` of src/parser/column_parser.rs: the definition of one column of a table.
pub mod Modifier
pub mod Rounds
pub mod Written
pub mod Regular
use rust_sqlpackage.Prelude.{
  ℕ, zero, suc, ◌+◌, ◌-◌, ◌*◌, ◌^◌, ◌/◌, ◌%◌, ◌≤◌, ◌<◌, min, String, ◌≡◌, refl, sym, ap, ◌∙◌, ◌≢◌,
  ◌↔◌, ◌⊎◌, inl, inr, Bool, true, false, not, ◌&&◌, ◌||◌, Option, none, some, List, [], ◌∷◌, ◌++◌,
  map, append-nil, append_assoc, arith, ltb, leb, ◌==◌, if◌then◌else◌, ltb→lt, lt→ltb, leb→le,
  ==_iff, tests, Bool-cases, both_true, Option-cases, length, get_elem?, head?, is_nil, take, drop,
  take_while, drop_while, length-append, take-append-drop, length-take, length-drop, take-take,
  get_elem?_past, take_all, get_elem?-append, drop-append, take-append,
  take_while-append-drop_while, Text, codes, to_ascii_lowercase, to_ascii_uppercase,
  eq_ignore_ascii_case, is_whitespace, trim_matches, trim, ℤ, pos, negsuc, parse_i64, parse_u64,
  neg_i64,
}
use rust_sqlpackage.Token.{
  Token, word, l_paren, r_paren, eq, minus, number, single_quoted_string, national_string_literal,
  Sqlparser,
}
use rust_sqlpackage.TokenParser.{
  TokenParser, Parse, pure, exec, asks, require, ◌>>=◌, ◌>>◌, new, advance, skip_whitespace,
  expect_keyword, check_keyword, check_word_ci, check_token, is_at_end, current_token, remaining,
  parse_identifier,
}
use rust_sqlpackage.TokenParser.Groups.{skip_parenthesized}
use rust_sqlpackage.Identifier.Format.{format_token}
use rust_sqlpackage.Batches.{lines}
use rust_sqlpackage.Batches.Lines.{starts_with}
use rust_sqlpackage.Constraint.{content_loop, nesting}

pub record TokenParsedColumn : Type 0 where
  pub name : Text
  pub data_type : Text
  pub nullability : Option Bool
  pub is_identity : Bool
  pub is_rowguidcol : Bool
  pub is_sparse : Bool
  pub is_filestream : Bool
  pub default_constraint_name : Option Text
  pub default_value : Option Text
  pub emit_default_constraint_name : Bool
  pub check_constraint_name : Option Text
  pub check_expression : Option Text
  pub emit_check_constraint_name : Bool
  pub computed_expression : Option Text
  pub is_persisted : Bool
  pub collation : Option Text
  pub is_generated_always_start : Bool
  pub is_generated_always_end : Bool
  pub is_hidden : Bool
  pub masking_function : Option Text

-- `TokenParsedColumn { name, ..Default::default() }`
abbrev pub new_column : Text → TokenParsedColumn
new_column n = record {
  name = n;
  data_type = [];
  nullability = none;
  is_identity = false;
  is_rowguidcol = false;
  is_sparse = false;
  is_filestream = false;
  default_constraint_name = none;
  default_value = none;
  emit_default_constraint_name = false;
  check_constraint_name = none;
  check_expression = none;
  emit_check_constraint_name = false;
  computed_expression = none;
  is_persisted = false;
  collation = none;
  is_generated_always_start = false;
  is_generated_always_end = false;
  is_hidden = false;
  masking_function = none;
}

-- `advance(); skip_whitespace();`
abbrev pub behind : TokenParser → TokenParser
behind p = skip_whitespace (advance p)

-- The text inside a group of parentheses, without white space around it.
abbrev group_content : Sqlparser → Parse Text
group_content lib = do
  require (check_token l_paren)
  exec advance
  λ p. (let r = content_loop lib (remaining p) 1 [] p in (some (trim r.0), r.1))

unfoldable pub parse_parenthesized_expression : Sqlparser → Parse Text
parse_parenthesized_expression lib = group_content lib

unfoldable pub consume_parenthesized_raw : Sqlparser → Parse Text
consume_parenthesized_raw lib = group_content lib

abbrev pub parenthesized : Text → Text
parenthesized s = codes "(" ++ (s ++ codes ")")

-- The arguments of a function, up to its closing parenthesis.
unfoldable pub args_loop : Sqlparser → ℕ → ℕ → Text → TokenParser → Text × TokenParser
args_loop lib zero depth args p = (args, p)
args_loop lib (suc f) depth args p =
    let next = λ (t : Token).
      (let added = if ltb 0 (nesting depth t) then format_token lib t else [] in
        args_loop lib f (nesting depth t) (args ++ added) (advance p)) in
    if is_at_end p || depth == 0
    then (args, p)
    else elim (current_token p) [ none ↦ (args, p) | some t ↦ next t ]

-- Behind a word: a call with or without arguments, or the word alone.
unfoldable pub call_or_word : Sqlparser → Text → TokenParser → Text × TokenParser
call_or_word lib func_name p =
    let q = behind p in
    let r = args_loop lib (remaining q) 1 [] q in
    if check_token l_paren p
    then (if check_token r_paren q
        then (func_name ++ codes "()", advance q)
        else (func_name ++ parenthesized (trim r.0), r.1))
    else (func_name, p)

abbrev quote : ℕ
quote = 0x27

-- `s.replace('\'', "''")`
unfoldable pub double_quotes : Text → Text
double_quotes [] = []
double_quotes (c ∷ s) =
    if c == quote then quote ∷ (quote ∷ double_quotes s) else c ∷ double_quotes s

-- A number behind a minus sign.
abbrev pub negative : Option Token → TokenParser → Option Text × TokenParser
negative (some (number n l)) p = (some (codes "-" ++ n), advance p)
negative _ p = (none, p)

unfoldable pub default_at : Sqlparser → Token → TokenParser → Option Text × TokenParser
default_at lib (word w) p = let r = call_or_word lib w.value (behind p) in (some r.0, r.1)
default_at lib (single_quoted_string s) p =
    (some (codes "'" ++ (double_quotes s ++ codes "'")), advance p)
default_at lib (national_string_literal s) p =
    (some (codes "N'" ++ (double_quotes s ++ codes "'")), advance p)
default_at lib (number n l) p = (some n, advance p)
default_at lib minus p = negative (current_token (advance p)) (advance p)
default_at lib _ p = (none, p)

unfoldable pub parse_default_value : Sqlparser → Parse Text
parse_default_value lib p =
    let q = skip_whitespace p in
    if check_token l_paren q
    then (parse_parenthesized_expression lib >>= λ expr. pure (parenthesized expr)) q
    else elim (current_token q) [ none ↦ (none, q) | some t ↦ default_at lib t q ]

abbrev string_of : Option Token → Option Text
string_of (some (single_quoted_string s)) = some s
string_of _ = none

-- The string of a mask and the closing parenthesis, each if it is there.
abbrev pub mask_from : TokenParser → Option Text × TokenParser
mask_from p =
    let q =
      skip_whitespace (elim (string_of (current_token p)) [ none ↦ p | some s ↦ advance p ]) in
    (string_of (current_token p), if check_token r_paren q then advance q else q)

unfoldable pub parse_masking_function : Parse Text
parse_masking_function = do
  require (check_token l_paren)
  exec behind
  require (check_word_ci (codes "FUNCTION"))
  exec behind
  require (check_token eq)
  exec behind
  mask_from

unfoldable pub parse_data_type : Sqlparser → Parse Text
parse_data_type lib = do
  exec skip_whitespace
  base ← parse_identifier
  exec skip_whitespace
  has_params ← asks (check_token l_paren)
  let params = do
    inside ← consume_parenthesized_raw lib
    pure (lib.to_uppercase base ++ parenthesized inside)
  if has_params then params else pure (lib.to_uppercase base)

-- COLLATE and a name, if present.
unfoldable pub parse_collation : TokenParser → Option Text × TokenParser
parse_collation p =
    let q = skip_whitespace p in
    if check_word_ci (codes "COLLATE") q then parse_identifier (behind q) else (none, q)

-- The variables of the loop over modifiers.
pub record Modifiers : Type 0 where
  pub column : TokenParsedColumn
  pub pending_constraint_name : Option Text
  pub constraint_immediately_precedes : Bool

abbrev pub Round : Type 0
Round = Modifiers → TokenParser → Modifiers × TokenParser

-- A modifier of one word.
abbrev pub flag : (TokenParsedColumn → TokenParsedColumn) → Round
flag f s p = (record s { column = f s.column }, advance p)

-- One that separates CONSTRAINT from DEFAULT.
abbrev pub separates : Round → Round
separates round s p =
    let r = round s p in (record r.0 { constraint_immediately_precedes = false }, r.1)

unfoldable pub identity : Round
identity s p =
    let q = behind p in
    (
      record s { column = record s.column { is_identity = true } },
      if check_token l_paren q then skip_parenthesized q else q,
    )

unfoldable pub not_null : Round
not_null s p =
    let q = behind p in
    if check_keyword "NULL" q
    then (
      record s {
        column = record s.column { nullability = some false };
        constraint_immediately_precedes = false;
      },
      advance q,
    )
    else (s, q)

abbrev pub set_null : Option Bool → Modifiers → Modifiers
set_null none s = record s {
  column = record s.column { nullability = some true };
  constraint_immediately_precedes = false;
}
set_null (some b) s = s

unfoldable pub nullable : Round
nullable s p = (set_null s.column.nullability s, advance p)

unfoldable pub constraint_name : Round
constraint_name s p =
    let r = parse_identifier (behind p) in
    (record s { pending_constraint_name = r.0; constraint_immediately_precedes = true }, r.1)

abbrev pub is_some {ℓ} : {A : Type ℓ} → Option A → Bool
is_some none = false
is_some (some a) = true

-- `pending_constraint_name.take()`: the name, and whether it is emitted.
unfoldable pub default_clause : Sqlparser → Round
default_clause lib s p =
    let r = parse_default_value lib (behind p) in
    (
      record s {
        column = record s.column {
          default_value = r.0;
          default_constraint_name = s.pending_constraint_name;
          emit_default_constraint_name =
              is_some s.pending_constraint_name && s.constraint_immediately_precedes;
        };
        pending_constraint_name = none;
        constraint_immediately_precedes = false;
      },
      r.1,
    )

unfoldable pub check_clause : Sqlparser → Round
check_clause lib s p =
    let q = behind p in
    let r = parse_parenthesized_expression lib q in
    if check_token l_paren q
    then (
      record s {
        column = record s.column {
          check_expression = r.0;
          check_constraint_name = s.pending_constraint_name;
          emit_check_constraint_name =
              is_some s.pending_constraint_name && s.constraint_immediately_precedes;
        };
        pending_constraint_name = none;
        constraint_immediately_precedes = false;
      },
      r.1,
    )
    else (s, q)

abbrev row_bound : Round
row_bound s p =
    if check_word_ci (codes "START") p
    then flag (λ c. record c { is_generated_always_start = true }) s p
    else if check_word_ci (codes "END") p
    then flag (λ c. record c { is_generated_always_end = true }) s p
    else (s, p)

-- ALWAYS AS ROW START or END behind GENERATED, as far as it goes.
unfoldable pub generated : Round
generated s p =
    let always = behind p in
    let as_word = behind always in
    let row = behind as_word in
    if check_word_ci (codes "ALWAYS") always
    then (if check_keyword "AS" as_word
        then (if check_word_ci (codes "ROW") row then row_bound s (behind row) else (s, row))
        else (s, as_word))
    else (s, always)

unfoldable pub masked : Round
masked s p =
    let q = behind p in
    let r = parse_masking_function (behind q) in
    if check_keyword "WITH" q
    then (record s { column = record s.column { masking_function = r.0 } }, r.1)
    else (s, q)

-- CLUSTERED or NONCLUSTERED behind white space, if present.
abbrev pub skip_clustering : TokenParser → TokenParser
skip_clustering p =
    let q = skip_whitespace p in
    if check_keyword "CLUSTERED" q || check_word_ci (codes "NONCLUSTERED") q then advance q else q

unfoldable pub primary_key : Round
primary_key s p =
    let q = behind p in (s, if check_keyword "KEY" q then skip_clustering (advance q) else q)

unfoldable pub unique : Round
unique s p = (s, skip_clustering (advance p))

unfoldable pub references_loop : ℕ → TokenParser → TokenParser
references_loop zero p = p
references_loop (suc f) p =
    let rest = references_loop f (advance p) in
    if is_at_end p
    then p
    else if check_keyword "CONSTRAINT" p || (check_keyword "DEFAULT" p || check_keyword "CHECK" p)
    then p
    else rest

unfoldable pub foreign_key : Round
foreign_key s p =
    let q = behind p in
    let r = skip_whitespace (if check_keyword "KEY" q then advance q else q) in
    (s, if check_keyword "REFERENCES" r then references_loop (remaining r) r else r)

-- The round for the current token; None is an unknown token, which ends the loop.
unfoldable pub modifier_at : Sqlparser → TokenParser → Option Round
modifier_at lib p =
    if check_keyword "IDENTITY" p
    then some (separates identity)
    else if check_keyword "NOT" p
    then some not_null
    else if check_keyword "NULL" p
    then some nullable
    else if check_keyword "CONSTRAINT" p
    then some constraint_name
    else if check_keyword "DEFAULT" p
    then some (default_clause lib)
    else if check_keyword "CHECK" p
    then some (check_clause lib)
    else if check_word_ci (codes "ROWGUIDCOL") p
    then some (flag (λ c. record c { is_rowguidcol = true }))
    else if check_word_ci (codes "SPARSE") p
    then some (flag (λ c. record c { is_sparse = true }))
    else if check_word_ci (codes "FILESTREAM") p
    then some (flag (λ c. record c { is_filestream = true }))
    else if check_word_ci (codes "GENERATED") p
    then some (separates generated)
    else if check_word_ci (codes "HIDDEN") p
    then some (separates (flag (λ c. record c { is_hidden = true })))
    else if check_word_ci (codes "MASKED") p
    then some (separates masked)
    else if check_word_ci (codes "PERSISTED") p
    then some (flag (λ c. record c { is_persisted = true }))
    else if check_keyword "PRIMARY" p
    then some primary_key
    else if check_keyword "UNIQUE" p
    then some unique
    else if check_keyword "FOREIGN" p
    then some foreign_key
    else none

-- The round behind the white space, with the rounds that are to follow.
unfoldable pub modifiers_round : Sqlparser → Round → Round
modifiers_round lib rest s q =
    if is_at_end q
    then (s, q)
    else elim (modifier_at lib q) [ none ↦ (s, q) | some round ↦ rest (round s q).0 (round s q).1 ]

unfoldable pub modifiers_loop : Sqlparser → ℕ → Round
modifiers_loop lib zero s p = (s, p)
modifiers_loop lib (suc f) s p = modifiers_round lib (modifiers_loop lib f) s (skip_whitespace p)

abbrev pub at_start : TokenParsedColumn → Modifiers
at_start c = record {
  column = c;
  pending_constraint_name = none;
  constraint_immediately_precedes = false;
}

unfoldable pub parse_column_modifiers :
    Sqlparser → TokenParsedColumn → TokenParser → TokenParsedColumn × TokenParser
parse_column_modifiers lib column p =
    let r = modifiers_loop lib (remaining p + 1) (at_start column) p in (r.0.column, r.1)

-- PERSISTED, NOT NULL and NULL behind a computed column's expression.
unfoldable pub computed_loop : ℕ → TokenParsedColumn → TokenParser → TokenParsedColumn × TokenParser
computed_loop zero c p = (c, p)
computed_loop (suc f) c p =
    let q = skip_whitespace p in
    let persisted = computed_loop f (record c { is_persisted = true }) (advance q) in
    let nulled = computed_loop f (record c { nullability = some true }) (advance q) in
    let negated =
      (if check_keyword "NULL" (behind q)
        then computed_loop f (record c { nullability = some false }) (advance (behind q))
        else computed_loop f c (behind q)) in
    if is_at_end q
    then (c, q)
    else if check_word_ci (codes "PERSISTED") q
    then persisted
    else if check_keyword "NOT" q
    then negated
    else if check_keyword "NULL" q
    then nulled
    else (c, q)

abbrev pub behind_expression : TokenParsedColumn → Parse TokenParsedColumn
behind_expression c p = let r = computed_loop (remaining p + 1) c p in (some r.0, r.1)

unfoldable pub parse_computed_column : Sqlparser → Text → Parse TokenParsedColumn
parse_computed_column lib name = do
  expect_keyword "AS"
  exec skip_whitespace
  expression ← parse_parenthesized_expression lib
  λ p.
      behind_expression
        (record (new_column name) { computed_expression = some (parenthesized expression) }) p

-- The collation and the modifiers.
abbrev pub behind_type : Sqlparser → TokenParsedColumn → Parse TokenParsedColumn
behind_type lib column p =
    let c = parse_collation p in
    let r = parse_column_modifiers lib (record column { collation = c.0 }) c.1 in (some r.0, r.1)

unfoldable pub regular_column : Sqlparser → Text → Parse TokenParsedColumn
regular_column lib name = do
  data_type ← parse_data_type lib
  behind_type lib (record (new_column name) { data_type = data_type })

unfoldable pub parse : Sqlparser → Parse TokenParsedColumn
parse lib = do
  exec skip_whitespace
  require (λ p. not (is_at_end p))
  name ← parse_identifier
  exec skip_whitespace
  computed ← asks (check_keyword "AS")
  if computed then parse_computed_column lib name else regular_column lib name

-- One line of `strip_leading_comments`: comment lines and the blank lines behind them are left out, the
-- others are joined by spaces.
unfoldable pub strip_line : Bool × Text → Text → Bool × Text
strip_line (in_comment, result) line =
    if starts_with (codes "--") (trim line)
    then (true, result)
    else if in_comment && is_nil (trim line)
    then (in_comment, result)
    else (false, if is_nil result then line else result ++ (codes " " ++ line))

unfoldable pub strip_lines : Bool × Text → List Text → Text
strip_lines s [] = s.1
strip_lines s (l ∷ ls) = strip_lines (strip_line s l) ls

unfoldable pub strip_leading_comments : Text → Text
strip_leading_comments sql = strip_lines (false, []) (lines sql)

unfoldable pub parse_column_definition_tokens : Sqlparser → Text → Option TokenParsedColumn
parse_column_definition_tokens lib col_def =
    let text = trim (strip_leading_comments col_def) in
    if is_nil text
    then none
    else elim (new lib text) [ none ↦ none | some parser ↦ (parse lib parser).0 ]
