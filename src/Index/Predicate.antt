-- ===== src/Index/Predicate.antt =====
-- The predicate of a filtered index.
use rust_sqlpackage.Prelude.{
  ℕ, zero, suc, ◌+◌, min, Bool, false, not, ◌&&◌, ◌||◌, Option, none, some, List, [], ◌∷◌, ◌++◌,
  leb, if◌then◌else◌, length, take, drop, take_while, drop_while, Text, codes, trim,
}
use rust_sqlpackage.Token.{
  Token, word, number, single_quoted_string, double_quoted_string, whitespace, l_paren, r_paren,
  comma, period, semi_colon, eq, neq, lt, gt, lt_eq, gt_eq, plus, minus, mul, div, Sqlparser,
  is_whitespace_token,
}
use rust_sqlpackage.TokenParser.{
  TokenParser, Parse, advance, check_keyword, check_token, is_at_end, remaining, is_keyword,
  same_kind,
}
use rust_sqlpackage.Identifier.Format.{wrap, format_word_bracketed}
use rust_sqlpackage.Util.{find_ci}

-- What one token adds to the text of a predicate.
unfoldable pub predicate_token : Sqlparser → Token → Text
predicate_token lib (word w) = format_word_bracketed w
predicate_token lib (number n _) = n
predicate_token lib (single_quoted_string s) = wrap "'" s "'"
predicate_token lib (double_quoted_string s) = wrap "\"" s "\""
predicate_token lib (whitespace _) = codes " "
predicate_token lib eq = codes "="
predicate_token lib neq = codes "<>"
predicate_token lib lt = codes "<"
predicate_token lib gt = codes ">"
predicate_token lib lt_eq = codes "<="
predicate_token lib gt_eq = codes ">="
predicate_token lib l_paren = codes "("
predicate_token lib r_paren = codes ")"
predicate_token lib comma = codes ","
predicate_token lib period = codes "."
predicate_token lib plus = codes "+"
predicate_token lib minus = codes "-"
predicate_token lib mul = codes "*"
predicate_token lib div = codes "/"
predicate_token lib t = lib.display t

-- `for token in tokens`, also the loop of `tokens_to_predicate_string`
unfoldable pub tokens_to_predicate_string : Sqlparser → List Token → Text
tokens_to_predicate_string lib [] = []
tokens_to_predicate_string lib (t ∷ ts) = predicate_token lib t ++ tokens_to_predicate_string lib ts

-- The tokens from `start` up to `end`, printed.
unfoldable pub tokens_to_string : Sqlparser → ℕ → ℕ → TokenParser → Text
tokens_to_string lib start end p =
    tokens_to_predicate_string lib (drop start (take (min end (length p.tokens)) p.tokens))

-- A token that ends a predicate.
unfoldable pub is_stop : Token → Bool
is_stop t = is_keyword "WITH" t || same_kind semi_colon t

-- The loop over the tokens of a predicate, with `end_pos`.
unfoldable pub predicate_loop : ℕ → ℕ → TokenParser → ℕ × TokenParser
predicate_loop zero end_pos p = (end_pos, p)
predicate_loop (suc f) end_pos p =
    let rest = predicate_loop f (p.pos + 1) (advance p) in
    if is_at_end p
    then (end_pos, p)
    else if check_keyword "WITH" p
    then (end_pos, p)
    else if check_token semi_colon p
    then (end_pos, p)
    else rest

-- `None` for an empty text.
unfoldable pub not_empty : Text → Option Text
not_empty [] = none
not_empty (c ∷ s) = some (c ∷ s)

unfoldable pub parse_filter_predicate : Sqlparser → Parse Text
parse_filter_predicate lib p =
    let (end_pos, q) = predicate_loop (remaining p) p.pos p in
    if leb end_pos p.pos
    then (none, q)
    else (not_empty (trim (tokens_to_string lib p.pos end_pos q)), q)

-- The predicate at the tokens behind WHERE and its white space; none of them gives none.
unfoldable pub predicate_at : Sqlparser → List Token → Option Text
predicate_at lib ts =
    not_empty (trim (tokens_to_predicate_string lib (take_while (λ t. not (is_stop t)) ts)))

-- The scan for WHERE behind a closing parenthesis, with `found_rparen`.
unfoldable pub scan_where : Sqlparser → Bool → List Token → Option Text
scan_where lib found_rparen [] = none
scan_where lib found_rparen (t ∷ ts) =
    let found = found_rparen || same_kind r_paren t in
    if found && is_keyword "WHERE" t
    then predicate_at lib (drop_while is_whitespace_token ts)
    else scan_where lib found ts

unfoldable pub extract_index_filter_predicate_tokenized : Sqlparser → Text → Option Text
extract_index_filter_predicate_tokenized lib sql = elim (lib.tokenize sql) [
  | none ↦ none
  | some tokens ↦ scan_where lib false tokens
]

-- `is_match` is that of the regular expression PAD_INDEX_RE.
unfoldable pub extract_index_is_padded : (Text → Bool) → Text → Bool
extract_index_is_padded is_match sql = elim (find_ci sql (codes "WITH")) [
  | none ↦ false
  | some with_pos ↦ is_match (drop with_pos sql)
]
