-- ===== src/Storage.antt =====
-- src/parser/storage_parser.rs: filegroups, partition functions and partition schemes. The source has
-- each parser twice, on a text and on tokens, with the same steps: the steps stand here once.
pub mod Partition
use rust_sqlpackage.Prelude.{
  ℕ, Bool, true, false, not, if◌then◌else◌, Option, none, some, List, Text, codes,
}
use rust_sqlpackage.Token.{Token, Sqlparser}
use rust_sqlpackage.TokenParser.{TokenParser, Parse, pure, ◌>>=◌, ◌>>◌, new, from_tokens}
use rust_sqlpackage.TokenParser.Words.{
  skip_keyword, try_skip_keyword, skip_symbol, skip_identifier, expect_identifier, expect_data_type,
}
use rust_sqlpackage.TokenParser.Listed.{parse_string_list, parse_identifier_list}

pub record ParsedFilegroup : Type 0 where
  pub name : Text
  pub contains_memory_optimized_data : Bool

pub record ParsedPartitionFunction : Type 0 where
  pub name : Text
  pub data_type : Text
  pub boundary_values : List Text
  pub is_range_right : Bool

pub record ParsedPartitionScheme : Type 0 where
  pub name : Text
  pub partition_function : Text
  pub filegroups : List Text

-- `parser.try_skip_keyword(keyword)` as a value
abbrev pub tried : Text → Parse Bool
tried keyword p = let r = try_skip_keyword keyword p in (some r.0, r.1)

-- `a && b`: the second is tried only behind the first.
abbrev pub both_tried : Text → Text → Parse Bool
both_tried k l = do first ← tried k; if first then tried l else pure false

unfoldable pub parse_filegroup : Parse ParsedFilegroup
parse_filegroup = do
  skip_keyword (codes "ALTER")
  skip_keyword (codes "DATABASE")
  skip_identifier
  skip_keyword (codes "ADD")
  skip_keyword (codes "FILEGROUP")
  name ← expect_identifier
  memory ← both_tried (codes "CONTAINS") (codes "MEMORY_OPTIMIZED_DATA")
  pure (record { name = name; contains_memory_optimized_data = memory })

-- RIGHT, LEFT, or nothing, which counts as RIGHT.
unfoldable pub range_right : Parse Bool
range_right = do
  right ← tried (codes "RIGHT")
  let other = do left ← tried (codes "LEFT"); pure (not left)
  if right then pure true else other

unfoldable pub parse_partition_function : Sqlparser → Parse ParsedPartitionFunction
parse_partition_function lib = do
  skip_keyword (codes "CREATE")
  skip_keyword (codes "PARTITION")
  skip_keyword (codes "FUNCTION")
  name ← expect_identifier
  skip_symbol b'('
  data_type ← expect_data_type lib
  skip_symbol b')'
  skip_keyword (codes "AS")
  skip_keyword (codes "RANGE")
  is_range_right ← range_right
  skip_keyword (codes "FOR")
  skip_keyword (codes "VALUES")
  skip_symbol b'('
  boundary_values ← parse_string_list
  pure (record {
    name = name;
    data_type = data_type;
    boundary_values = boundary_values;
    is_range_right = is_range_right;
  })

unfoldable pub parse_partition_scheme : Parse ParsedPartitionScheme
parse_partition_scheme = do
  skip_keyword (codes "CREATE")
  skip_keyword (codes "PARTITION")
  skip_keyword (codes "SCHEME")
  name ← expect_identifier
  skip_keyword (codes "AS")
  skip_keyword (codes "PARTITION")
  partition_function ← expect_identifier
  is_all ← tried (codes "ALL")
  skip_keyword (codes "TO")
  skip_symbol b'('
  filegroups ← parse_identifier_list
  pure (record { name = name; partition_function = partition_function; filegroups = filegroups })

-- The entry points: from a text, and from tokens.
abbrev on_text {ℓ} : {A : Type ℓ} → Parse A → Sqlparser → Text → Option A
on_text m lib sql = elim (new lib sql) [ none ↦ none | some parser ↦ (m parser).0 ]

unfoldable pub parse_filegroup_tokens : Sqlparser → Text → Option ParsedFilegroup
parse_filegroup_tokens lib = on_text parse_filegroup lib

unfoldable pub parse_partition_function_tokens : Sqlparser → Text → Option ParsedPartitionFunction
parse_partition_function_tokens lib = on_text (parse_partition_function lib) lib

unfoldable pub parse_partition_scheme_tokens : Sqlparser → Text → Option ParsedPartitionScheme
parse_partition_scheme_tokens lib = on_text parse_partition_scheme lib

unfoldable pub parse_filegroup_tokens_with_tokens : List Token → Option ParsedFilegroup
parse_filegroup_tokens_with_tokens tokens = (parse_filegroup (from_tokens tokens)).0

unfoldable pub parse_partition_function_tokens_with_tokens :
    Sqlparser → List Token → Option ParsedPartitionFunction
parse_partition_function_tokens_with_tokens lib tokens =
    (parse_partition_function lib (from_tokens tokens)).0

unfoldable pub parse_partition_scheme_tokens_with_tokens : List Token → Option ParsedPartitionScheme
parse_partition_scheme_tokens_with_tokens tokens = (parse_partition_scheme (from_tokens tokens)).0
