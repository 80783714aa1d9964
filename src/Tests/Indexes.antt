-- ===== src/Tests/Indexes.antt =====
-- Indexes: the theorems applied to concrete tokens.
use rust_sqlpackage.Prelude.{
  ◌≡◌, refl, true, false, none, some, List, [], ◌∷◌, ◌++◌, codes, parse_u64,
}
use rust_sqlpackage.Token.{
  Token, word, number, l_paren, r_paren, eq, discriminant, is_whitespace_token,
}
use rust_sqlpackage.TokenParser.{is_word_ci, is_keyword, skip_whitespace}
use rust_sqlpackage.TokenParser.Cursor.{cursor}
use rust_sqlpackage.Constraint.Columns.{desc, unsaid, Ordered}
use rust_sqlpackage.Index.{TokenParsedIndex}
use rust_sqlpackage.Index.Create.{parse_create_index}
use rust_sqlpackage.Index.Predicate.{is_stop, scan_where, parse_filter_predicate}
use rust_sqlpackage.Index.Filtered.{scan_where-parse_filter_predicate}
use rust_sqlpackage.Index.Columns.{index_column_of}
use rust_sqlpackage.Index.With as With
use rust_sqlpackage.Index.Tail.{Included, Predicate, Settings, tail_tokens, with_tail}
use rust_sqlpackage.Index.Statements.{index_tokens, parse_create_index-index_tokens}
use rust_sqlpackage.Tests.{lib, bare, space}
use rust_sqlpackage.Tests.Definitions.{gap, gap-AllBlank}

abbrev id : Ordered
id = (bare "Id", unsaid)

abbrev created : Ordered
created = (bare "CreatedAt", desc)

abbrev included : Included
included = some (bare "Total", [])

-- `Status = 1 `
abbrev open_orders : Predicate
open_orders =
    some (word (bare "Status"), space ∷ (eq ∷ (space ∷ (number (codes "1") false ∷ (space ∷ [])))))

abbrev padded : Settings
padded = some (
  With.pad_index true,
  With.unread (bare "MAXDOP") (space ∷ (eq ∷ (space ∷ (number (codes "4") false ∷ []))))
      ∷ (With.fill_factor (codes "80") false 80 ∷ []),
)

abbrev plain_index : TokenParsedIndex
plain_index = record {
  name = codes "IX_Orders";
  table_schema = codes "dbo";
  table_name = codes "Orders";
  columns = index_column_of id ∷ (index_column_of created ∷ []);
  include_columns = [];
  is_unique = true;
  is_clustered = false;
  fill_factor = none;
  filter_predicate = none;
  data_compression = none;
  is_padded = false;
}

parse_create_index-index_tokens_example :
    (parse_create_index lib (
      cursor [] (
        index_tokens gap true false
          (bare "IX_Orders")
          (none, bare "Orders")
          id
          (created ∷ [])
          (tail_tokens gap included open_orders padded (some []))))).0
    ≡ some (with_tail lib included open_orders padded plain_index)
unfolding is_stop is_keyword is_word_ci discriminant is_whitespace_token parse_u64
parse_create_index-index_tokens_example =
    parse_create_index-index_tokens lib gap gap-AllBlank true false (bare "IX_Orders")
      (none, bare "Orders") id (created ∷ []) included open_orders padded (some [])
      (refl, (refl, (refl, (refl, (refl, (refl, (refl, tt)))))))
      (tt, ((refl, refl, refl, (refl, refl, (refl, refl, (refl, refl, (refl, refl, tt))))), refl))

abbrev before_where : List Token
before_where = l_paren ∷ (word (bare "Id") ∷ (r_paren ∷ (space ∷ [])))

abbrev behind_where : List Token
behind_where = space ∷ (word (bare "Status") ∷ (eq ∷ (number (codes "1") false ∷ [])))

scan_where-parse_filter_predicate_example :
    scan_where lib false (before_where ++ (word (bare "WHERE") ∷ behind_where))
    ≡ (parse_filter_predicate lib (skip_whitespace (cursor before_where behind_where))).0
unfolding is_keyword discriminant
scan_where-parse_filter_predicate_example =
    scan_where-parse_filter_predicate lib before_where before_where (bare "WHERE") behind_where refl
      (refl, (refl, (refl, (refl, tt)))) refl
