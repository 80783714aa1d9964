-- ===== src/Constraint.antt =====
-- `ConstraintTokenParser` of src/parser/constraint_parser.rs: constraints of a table, added by ALTER
-- TABLE or written in CREATE TABLE.
pub mod Columns
pub mod Names
pub mod Expression
pub mod TableName
pub mod Statements
pub mod Table
use rust_sqlpackage.Prelude.{
  ℕ, zero, suc, ◌+◌, ◌-◌, ◌*◌, ◌^◌, ◌/◌, ◌%◌, ◌≤◌, ◌<◌, min, String, ◌≡◌, refl, sym, ap, ◌∙◌, ◌≢◌,
  ◌↔◌, ◌⊎◌, inl, inr, Bool, true, false, not, ◌&&◌, ◌||◌, Option, none, some, List, [], ◌∷◌, ◌++◌,
  map, append-nil, append_assoc, arith, ltb, leb, ◌==◌, if◌then◌else◌, ltb→lt, lt→ltb, leb→le,
  ==_iff, tests, Bool-cases, both_true, Option-cases, length, get_elem?, head?, is_nil, take, drop,
  take_while, drop_while, length-append, take-append-drop, length-take, length-drop, take-take,
  get_elem?_past, take_all, get_elem?-append, drop-append, take-append,
  take_while-append-drop_while, Text, codes, to_ascii_lowercase, to_ascii_uppercase,
  eq_ignore_ascii_case, is_whitespace, trim_matches, trim, ℤ, pos, negsuc, parse_i64, parse_u64,
  neg_i64,
}
use rust_sqlpackage.Token.{Token, l_paren, r_paren, comma, Sqlparser}
use rust_sqlpackage.TokenParser.{
  TokenParser, Parse, pure, fail, continue, exec, asks, require, ◌>>=◌, ◌>>◌, new, from_tokens,
  advance, skip_whitespace, check_keyword, check_word_ci, check_token, is_at_end, current_token,
  remaining, parse_identifier, parse_schema_qualified_name,
}
use rust_sqlpackage.Identifier.Format.{format_token}

pub record TokenParsedConstraintColumn : Type 0 where
  pub name : Text
  pub descending : Bool

pub data TokenParsedConstraint : Type 0 where
  -- name, columns, is_clustered
  primary_key : Text → List TokenParsedConstraintColumn → Bool → TokenParsedConstraint
  unique : Text → List TokenParsedConstraintColumn → Bool → TokenParsedConstraint
  -- name, columns, referenced_table, referenced_columns
  foreign_key : Text → List Text → Text → List Text → TokenParsedConstraint
  -- name, expression
  check : Text → Text → TokenParsedConstraint

pub record TokenParsedAlterTableConstraint : Type 0 where
  pub table_schema : Text
  pub table_name : Text
  pub constraint : TokenParsedConstraint

-- `if !test { return None; } advance(); skip_whitespace();`
abbrev pub pass : (TokenParser → Bool) → Parse (Unit {0})
pass test = do require test; exec advance; exec skip_whitespace

-- `if test { advance(); skip_whitespace(); }`, and whether it was.
abbrev pub passed : (TokenParser → Bool) → Parse Bool
passed test = do
  found ← asks test
  let go = do exec advance; exec skip_whitespace; pure true
  if found then go else pure false

-- CLUSTERED or NONCLUSTERED, if written, or the default.
unfoldable pub clustering : Bool → Parse Bool
clustering default = do
  clustered ← passed (check_keyword "CLUSTERED")
  let other = do
    nonclustered ← passed (check_word_ci (codes "NONCLUSTERED"))
    pure (if nonclustered then false else default)
  if clustered then pure true else other

-- ASC or DESC, if written.
unfoldable pub sort_order : Parse Bool
sort_order = do
  asc ← passed (check_keyword "ASC")
  if asc then pure false else passed (check_keyword "DESC")

unfoldable pub constraint_column : Parse TokenParsedConstraintColumn
constraint_column = do
  exec skip_whitespace
  col_name ← parse_identifier
  exec skip_whitespace
  descending ← sort_order
  pure (record { name = col_name; descending = descending })

-- Behind a column: whether the loop goes on, and from where. An unexpected token is passed over.
unfoldable pub behind_column : TokenParser → Bool × TokenParser
behind_column p =
    if check_token comma p
    then (true, skip_whitespace (advance p))
    else if check_token r_paren p
    then (false, p)
    else (true, advance p)

abbrev pub at_list_end : TokenParser → Bool
at_list_end p = is_at_end p || check_token r_paren p

unfoldable pub columns_loop :
    ℕ → List TokenParsedConstraintColumn → Parse (List TokenParsedConstraintColumn)
columns_loop zero columns p = (some columns, p)
columns_loop (suc f) columns p =
    let next = λ (c : TokenParsedConstraintColumn) (q : TokenParser).
      (let s = behind_column q in
        let rest = columns_loop f (columns ++ c ∷ []) s.1 in
        if s.0 then rest else (some (columns ++ c ∷ []), s.1)) in
    if at_list_end p then (some columns, p) else continue next (constraint_column p)

-- The closing parenthesis, if it is there.
abbrev pub close_list : TokenParser → TokenParser
close_list p = if check_token r_paren p then advance p else p

unfoldable pub parse_constraint_column_list : Parse (List TokenParsedConstraintColumn)
parse_constraint_column_list = do
  pass (check_token l_paren)
  columns ← λ p. columns_loop (remaining p) [] p
  exec close_list
  require (λ p. not (is_nil columns))
  pure columns

unfoldable pub names_loop : ℕ → List Text → TokenParser → List Text × TokenParser
names_loop zero columns p = (columns, p)
names_loop (suc f) columns p =
    let q = skip_whitespace p in
    let next = λ (c : Text).
      (let s = behind_column (skip_whitespace (parse_identifier q).1) in
        let rest = names_loop f (columns ++ c ∷ []) s.1 in
        if s.0 then rest else (columns ++ c ∷ [], s.1)) in
    if at_list_end p then (columns, p) else elim ((parse_identifier q).0) [
      | none ↦ (columns, (parse_identifier q).1)
      | some c ↦ next c
    ]

unfoldable pub parse_simple_column_list : Parse (List Text)
parse_simple_column_list = do
  pass (check_token l_paren)
  columns ← λ p. (let r = names_loop (remaining p) [] p in (some r.0, r.1))
  exec close_list
  require (λ p. not (is_nil columns))
  pure columns

-- What one token adds inside an expression, and to the depth.
abbrev pub nesting : ℕ → Token → ℕ
nesting d l_paren = d + 1
nesting d r_paren = d - 1
nesting d _ = d

abbrev pub content_of : Sqlparser → ℕ → Token → Text
content_of lib d l_paren = codes "("
content_of lib d r_paren = if ltb 0 (d - 1) then codes ")" else []
content_of lib d t = format_token lib t

unfoldable pub content_loop : Sqlparser → ℕ → ℕ → Text → TokenParser → Text × TokenParser
content_loop lib zero depth content p = (content, p)
content_loop lib (suc f) depth content p =
    let next = λ (t : Token).
      content_loop lib f (nesting depth t) (content ++ content_of lib depth t) (advance p) in
    if is_at_end p || depth == 0
    then (content, p)
    else elim (current_token p) [ none ↦ (content, p) | some t ↦ next t ]

unfoldable pub parse_parenthesized_expression : Sqlparser → Parse Text
parse_parenthesized_expression lib = do
  require (check_token l_paren)
  exec advance
  content ← λ p. (let r = content_loop lib (remaining p) 1 [] p in (some r.0, r.1))
  require (λ p. not (is_nil (trim content)))
  pure (trim content)

unfoldable pub parse_primary_key_constraint : Text → Parse TokenParsedConstraint
parse_primary_key_constraint name = do
  pass (check_keyword "PRIMARY")
  pass (check_keyword "KEY")
  is_clustered ← clustering true
  columns ← parse_constraint_column_list
  pure (primary_key name columns is_clustered)

unfoldable pub parse_unique_constraint : Text → Parse TokenParsedConstraint
parse_unique_constraint name = do
  pass (check_keyword "UNIQUE")
  is_clustered ← clustering false
  columns ← parse_constraint_column_list
  pure (unique name columns is_clustered)

-- `[schema].[table]`
abbrev pub bracketed : Text × Text → Text
bracketed (schema, table) = codes "[" ++ (schema ++ (codes "].[" ++ (table ++ codes "]")))

unfoldable pub parse_foreign_key_constraint : Text → Parse TokenParsedConstraint
parse_foreign_key_constraint name = do
  pass (check_keyword "FOREIGN")
  pass (check_keyword "KEY")
  columns ← parse_simple_column_list
  exec skip_whitespace
  pass (check_keyword "REFERENCES")
  referenced ← parse_schema_qualified_name
  exec skip_whitespace
  referenced_columns ← parse_simple_column_list
  pure (foreign_key name columns (bracketed referenced) referenced_columns)

unfoldable pub parse_check_constraint : Sqlparser → Text → Parse TokenParsedConstraint
parse_check_constraint lib name = do
  pass (check_keyword "CHECK")
  expression ← parse_parenthesized_expression lib
  pure (check name expression)

-- The constraint by its first word, with the name for each kind.
unfoldable pub constraint_by_kind :
    Sqlparser → Text → Text → Text → Text → Parse TokenParsedConstraint
constraint_by_kind lib pk uq fk ck p =
    if check_keyword "PRIMARY" p
    then parse_primary_key_constraint pk p
    else if check_keyword "UNIQUE" p
    then parse_unique_constraint uq p
    else if check_keyword "FOREIGN" p
    then parse_foreign_key_constraint fk p
    else if check_keyword "CHECK" p
    then parse_check_constraint lib ck p
    else fail p

-- WITH CHECK or WITH NOCHECK, if present.
unfoldable pub skip_with_check : Parse (Unit {0})
skip_with_check = do
  found ← passed (check_keyword "WITH")
  let option = do
    checked ← passed (λ p. check_keyword "CHECK" p || check_word_ci (codes "NOCHECK") p)
    pure tt
  if found then option else pure tt

-- ALTER TABLE and the name of the table.
unfoldable pub alter_table_name : Parse (Text × Text)
alter_table_name = do
  exec skip_whitespace
  pass (check_keyword "ALTER")
  pass (check_keyword "TABLE")
  parse_schema_qualified_name

unfoldable pub parse_alter_table_add_constraint : Sqlparser → Parse TokenParsedAlterTableConstraint
parse_alter_table_add_constraint lib = do
  table ← alter_table_name
  exec skip_whitespace
  skip_with_check
  pass (check_keyword "ADD")
  pass (check_keyword "CONSTRAINT")
  name ← parse_identifier
  exec skip_whitespace
  constraint ← constraint_by_kind lib name name name name
  pure (record { table_schema = table.0; table_name = table.1; constraint = constraint })

-- CONSTRAINT and a name, if present.
unfoldable pub optional_name : Parse (Option Text)
optional_name = do
  found ← passed (check_keyword "CONSTRAINT")
  let name = do name ← parse_identifier; pure (some name)
  if found then name else pure none

abbrev pub name_or : Option Text → Text → Text
name_or none default = default
name_or (some name) default = name

unfoldable pub parse_table_constraint : Sqlparser → Text → Parse TokenParsedConstraint
parse_table_constraint lib table = do
  exec skip_whitespace
  name ← optional_name
  exec skip_whitespace
  constraint_by_kind lib (name_or name (codes "PK_" ++ table)) (name_or name (codes "UQ_" ++ table))
      (name_or name (codes "FK_" ++ table)) (name_or name (codes "CK_" ++ table))

abbrev on_text {ℓ} : {A : Type ℓ} → Parse A → Sqlparser → Text → Option A
on_text m lib sql = elim (new lib sql) [ none ↦ none | some parser ↦ (m parser).0 ]

unfoldable pub parse_alter_table_add_constraint_tokens :
    Sqlparser → Text → Option TokenParsedAlterTableConstraint
parse_alter_table_add_constraint_tokens lib = on_text (parse_alter_table_add_constraint lib) lib

unfoldable pub parse_table_constraint_tokens :
    Sqlparser → Text → Text → Option TokenParsedConstraint
parse_table_constraint_tokens lib constraint_def table_name =
    on_text (parse_table_constraint lib table_name) lib constraint_def

unfoldable pub parse_alter_table_name_tokens : Sqlparser → Text → Option (Text × Text)
parse_alter_table_name_tokens lib = on_text alter_table_name lib

unfoldable pub parse_alter_table_add_constraint_tokens_with_tokens :
    Sqlparser → List Token → Option TokenParsedAlterTableConstraint
parse_alter_table_add_constraint_tokens_with_tokens lib tokens =
    (parse_alter_table_add_constraint lib (from_tokens tokens)).0

unfoldable pub parse_alter_table_name_tokens_with_tokens : List Token → Option (Text × Text)
parse_alter_table_name_tokens_with_tokens tokens = (alter_table_name (from_tokens tokens)).0
