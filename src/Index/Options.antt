-- ===== src/Index/Options.antt =====
-- INCLUDE, WHERE and WITH behind the columns of an index.
use rust_sqlpackage.Prelude.{
  ℕ, zero, suc, true, false, Option, none, some, List, leb, if◌then◌else◌, Text, codes,
}
use rust_sqlpackage.Token.{l_paren, r_paren, comma, semi_colon, eq, Sqlparser}
use rust_sqlpackage.TokenParser.{
  TokenParser, Parse, pure, exec, asks, attempt, ◌>>=◌, ◌>>◌, advance, skip_whitespace,
  check_keyword, check_word_ci, check_token, is_at_end, remaining, parse_identifier,
}
use rust_sqlpackage.TokenParser.Literals.{parse_positive_integer}
use rust_sqlpackage.Constraint.{passed, at_list_end, close_list}
use rust_sqlpackage.Index.{TokenParsedIndex, parse_simple_column_list}
use rust_sqlpackage.Index.Predicate.{parse_filter_predicate}

-- The loop of `skip_to_comma_or_paren`: it stops behind a comma or in front of a parenthesis.
unfoldable pub skip_loop : ℕ → TokenParser → TokenParser
skip_loop zero p = p
skip_loop (suc f) p =
    let rest = skip_loop f (advance p) in
    if is_at_end p
    then p
    else if check_token comma p
    then advance p
    else if check_token r_paren p
    then p
    else rest

unfoldable pub skip_to_comma_or_paren : TokenParser → TokenParser
skip_to_comma_or_paren p = skip_loop (remaining p) p

-- The fields that WITH options set.
abbrev pub set_fill_factor : TokenParsedIndex → Option ℕ → TokenParsedIndex
set_fill_factor result none = result
set_fill_factor result (some value) =
    if leb value 100 then record result { fill_factor = some value } else result

abbrev pub set_compression : Sqlparser → TokenParsedIndex → Option Text → TokenParsedIndex
set_compression lib result none = result
set_compression lib result (some compression) = record result {
  data_compression = some (lib.to_uppercase compression);
}

-- FILLFACTOR = n
unfoldable pub fill_factor_option : TokenParsedIndex → Parse TokenParsedIndex
fill_factor_option result = do
  exec advance
  exec skip_whitespace
  equals ← passed (check_token eq)
  let read = do value ← attempt parse_positive_integer; pure (set_fill_factor result value)
  if equals then read else pure result

-- DATA_COMPRESSION = name: the name, if there is one
unfoldable pub compression_option : Parse (Option Text)
compression_option = do
  exec advance
  exec skip_whitespace
  equals ← passed (check_token eq)
  if equals then attempt parse_identifier else pure none

-- PAD_INDEX = ON or OFF
unfoldable pub pad_index_option : TokenParsedIndex → Parse TokenParsedIndex
pad_index_option result = do
  exec advance
  exec skip_whitespace
  equals ← passed (check_token eq)
  on ← asks (check_word_ci (codes "ON"))
  off ← asks (check_word_ci (codes "OFF"))
  let set_on = do exec advance; pure (record result { is_padded = true })
  let set_off = do exec advance; pure (record result { is_padded = false })
  if equals then (if on then set_on else if off then set_off else pure result) else pure result

-- One option, without the skip that follows.
unfoldable pub with_option : Sqlparser → TokenParsedIndex → Parse TokenParsedIndex
with_option lib result p =
    if check_word_ci (codes "FILLFACTOR") p
    then fill_factor_option result p
    else if check_word_ci (codes "DATA_COMPRESSION") p
    then (◌>>=◌ compression_option (λ c. pure (set_compression lib result c))) p
    else if check_word_ci (codes "PAD_INDEX") p
    then pad_index_option result p
    else (some result, p)

-- `None` of an option does not occur: every step of it succeeds.
abbrev pub after_option {ℓ} :
    {A : Type ℓ}
    → (A → TokenParser → A × TokenParser)
    → A
    → Option A × TokenParser
    → A × TokenParser
after_option rest result (none, q) = (result, q)
after_option rest result (some r, q) = rest r (skip_to_comma_or_paren q)

unfoldable pub with_loop :
    Sqlparser → ℕ → TokenParsedIndex → TokenParser → TokenParsedIndex × TokenParser
with_loop lib zero result p = (result, p)
with_loop lib (suc f) result p =
    let next = after_option (with_loop lib f) result (with_option lib result (skip_whitespace p)) in
    if at_list_end p then (result, p) else next

unfoldable pub parse_with_options :
    Sqlparser → TokenParsedIndex → TokenParser → TokenParsedIndex × TokenParser
parse_with_options lib result p =
    let q = skip_whitespace (advance p) in
    let (r, s) = with_loop lib (remaining q) result q in
    if check_token l_paren p then (r, close_list s) else (result, p)

abbrev pub set_include : TokenParsedIndex → Option (List Text) → TokenParsedIndex
set_include result none = result
set_include result (some cols) = record result { include_columns = cols }

abbrev pub set_predicate : TokenParsedIndex → Option Text → TokenParsedIndex
set_predicate result none = result
set_predicate result (some predicate) = record result { filter_predicate = some predicate }

-- The clause at the position: the new result, behind it.
unfoldable pub include_clause : TokenParsedIndex → TokenParser → TokenParsedIndex × TokenParser
include_clause result p =
    let (cols, q) = parse_simple_column_list (skip_whitespace (advance p)) in
    (set_include result cols, q)

unfoldable pub where_clause :
    Sqlparser → TokenParsedIndex → TokenParser → TokenParsedIndex × TokenParser
where_clause lib result p =
    let (predicate, q) = parse_filter_predicate lib (skip_whitespace (advance p)) in
    (set_predicate result predicate, q)

-- The loop of `parse_index_options`.
unfoldable pub options_loop :
    Sqlparser → ℕ → TokenParsedIndex → TokenParser → TokenParsedIndex × TokenParser
options_loop lib zero result p = (result, p)
options_loop lib (suc f) result p =
    let q = skip_whitespace p in
    let included = include_clause result q in
    let filtered = where_clause lib result q in
    let optioned = parse_with_options lib result (skip_whitespace (advance q)) in
    let next =
      if check_keyword "INCLUDE" q
      then included
      else if check_keyword "WHERE" q
      then filtered
      else if check_keyword "WITH" q
      then optioned
      else (result, advance q) in
    let rest = options_loop lib f next.0 next.1 in
    if is_at_end p
    then (result, p)
    else if is_at_end q
    then (result, q)
    else if check_token semi_colon q
    then (result, q)
    else rest

unfoldable pub parse_index_options :
    Sqlparser → TokenParsedIndex → TokenParser → TokenParsedIndex × TokenParser
parse_index_options lib result p = options_loop lib (remaining p) result p
