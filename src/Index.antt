-- ===== src/Index.antt =====
-- `IndexTokenParser` of src/parser/index_parser.rs: CREATE INDEX with CLUSTERED or NONCLUSTERED, and
-- CREATE COLUMNSTORE INDEX.
pub mod Predicate
pub mod Filtered
pub mod Options
pub mod Columns
pub mod Skip
pub mod With
pub mod Settings
pub mod Clauses
pub mod Tail
pub mod Leads
pub mod Statements
pub mod Create
pub mod Columnstore
use rust_sqlpackage.Prelude.{
  ℕ, zero, suc, ◌+◌, ◌-◌, ◌*◌, ◌^◌, ◌/◌, ◌%◌, ◌≤◌, ◌<◌, min, String, ◌≡◌, refl, sym, ap, ◌∙◌, ◌≢◌,
  ◌↔◌, ◌⊎◌, inl, inr, Bool, true, false, not, ◌&&◌, ◌||◌, Option, none, some, List, [], ◌∷◌, ◌++◌,
  map, append-nil, append_assoc, arith, ltb, leb, ◌==◌, if◌then◌else◌, ltb→lt, lt→ltb, leb→le,
  ==_iff, tests, Bool-cases, both_true, Option-cases, length, get_elem?, head?, is_nil, take, drop,
  take_while, drop_while, length-append, take-append-drop, length-take, length-drop, take-take,
  get_elem?_past, take_all, get_elem?-append, drop-append, take-append,
  take_while-append-drop_while, Text, codes, to_ascii_lowercase, to_ascii_uppercase,
  eq_ignore_ascii_case, is_whitespace, trim_matches, trim, ℤ, pos, negsuc, parse_i64, parse_u64,
  neg_i64,
}
use rust_sqlpackage.Token.{
  Token, word, number, single_quoted_string, double_quoted_string, whitespace, l_paren, r_paren,
  comma, period, semi_colon, eq, neq, lt, gt, lt_eq, gt_eq, plus, minus, mul, div, Sqlparser,
  is_whitespace_token,
}
use rust_sqlpackage.TokenParser.{
  TokenParser, Parse, pure, exec, asks, require, attempt, ◌>>=◌, ◌>>◌, new, from_tokens, advance,
  skip_whitespace, check_keyword, check_word_ci, check_token, is_at_end, remaining, is_keyword,
  same_kind, parse_identifier, parse_schema_qualified_name,
}
use rust_sqlpackage.TokenParser.Literals.{parse_positive_integer}
use rust_sqlpackage.Identifier.Format.{wrap, format_word_bracketed}
use rust_sqlpackage.Util.{find_ci}
use rust_sqlpackage.Constraint.{pass, passed, behind_column, at_list_end, close_list}

pub record ParsedIndexColumn : Type 0 where
  pub name : Text
  pub is_descending : Bool

pub record TokenParsedIndex : Type 0 where
  pub name : Text
  pub table_schema : Text
  pub table_name : Text
  pub columns : List ParsedIndexColumn
  pub include_columns : List Text
  pub is_unique : Bool
  pub is_clustered : Bool
  pub fill_factor : Option ℕ
  pub filter_predicate : Option Text
  pub data_compression : Option Text
  pub is_padded : Bool

pub record TokenParsedColumnstoreIndex : Type 0 where
  pub name : Text
  pub table_schema : Text
  pub table_name : Text
  pub is_clustered : Bool
  pub columns : List Text
  pub data_compression : Option Text
  pub filter_predicate : Option Text

-- CLUSTERED or NONCLUSTERED, if written.
unfoldable pub clustering : Parse (Option Bool)
clustering = do
  clustered ← passed (check_word_ci (codes "CLUSTERED"))
  let other = do
    nonclustered ← passed (check_word_ci (codes "NONCLUSTERED"))
    pure (if nonclustered then some false else none)
  if clustered then pure (some true) else other

-- DESC or ASC behind a column's name, if written.
unfoldable pub direction : Text → Parse ParsedIndexColumn
direction col_name = do
  exec skip_whitespace
  desc ← passed (check_keyword "DESC")
  let other = do asc ← passed (check_keyword "ASC"); pure false
  is_descending ← if desc then pure true else other
  pure (record { name = col_name; is_descending = is_descending })

abbrev pub Listed : Type 0
Listed = List ParsedIndexColumn × TokenParser

-- `None` of the direction does not occur: every step of its succeeds.
abbrev after_direction :
    (List ParsedIndexColumn → TokenParser → Listed)
    → List ParsedIndexColumn
    → Option ParsedIndexColumn × TokenParser
    → Listed
after_direction rest columns (none, q) = (columns, q)
after_direction rest columns (some c, q) =
    let s = behind_column q in
    if s.0 then rest (columns ++ c ∷ []) s.1 else (columns ++ c ∷ [], s.1)

unfoldable pub columns_loop : ℕ → List ParsedIndexColumn → TokenParser → Listed
columns_loop zero columns p = (columns, p)
columns_loop (suc f) columns p =
    let q = skip_whitespace p in
    if at_list_end p then (columns, p) else elim ((parse_identifier q).0) [
      | none ↦ (columns, (parse_identifier q).1)
      | some n ↦ after_direction (columns_loop f) columns (direction n (parse_identifier q).1)
    ]

unfoldable pub parse_column_list : Parse (List ParsedIndexColumn)
parse_column_list = do
  pass (check_token l_paren)
  columns ← λ p. (let r = columns_loop (remaining p) [] p in (some r.0, r.1))
  exec close_list
  require (λ p. not (is_nil columns))
  pure columns

unfoldable pub names_loop : ℕ → List Text → TokenParser → List Text × TokenParser
names_loop zero columns p = (columns, p)
names_loop (suc f) columns p =
    let q = skip_whitespace p in
    let next = λ (c : Text).
      (let s = behind_column (skip_whitespace (parse_identifier q).1) in
        let rest = names_loop f (columns ++ c ∷ []) s.1 in
        if s.0 then rest else (columns ++ c ∷ [], s.1)) in
    if at_list_end p then (columns, p) else elim ((parse_identifier q).0) [
      | none ↦ (columns, (parse_identifier q).1)
      | some c ↦ next c
    ]

unfoldable pub parse_simple_column_list : Parse (List Text)
parse_simple_column_list = do
  pass (check_token l_paren)
  columns ← λ p. (let r = names_loop (remaining p) [] p in (some r.0, r.1))
  exec close_list
  require (λ p. not (is_nil columns))
  pure columns
