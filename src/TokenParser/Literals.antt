-- ===== src/TokenParser/Literals.antt =====
-- `TokenParser` of src/parser/token_parser_base.rs: data types and numbers.
use rust_sqlpackage.Prelude.{
  ℕ, Bool, true, false, if◌then◌else◌, Option, none, some, Text, ℤ, parse_i64, parse_u64, neg_i64,
}
use rust_sqlpackage.Token.{Token, word, number, minus, Sqlparser}
use rust_sqlpackage.TokenParser.{
  Parse, ◌>>=◌, is_at_end, advance, skip_whitespace, check_token, read_token,
}

abbrev pub type_name_of : Sqlparser → Token → Option Text
type_name_of lib (word w) = some (lib.to_uppercase w.value)
type_name_of lib _ = none

unfoldable pub parse_data_type_simple : Sqlparser → Parse Text
parse_data_type_simple lib = read_token (type_name_of lib)

abbrev pub signed_of : Bool → Option ℤ → Option ℤ
signed_of is_negative none = none
signed_of is_negative (some v) = some (if is_negative then neg_i64 v else v)

abbrev pub integer_of : Bool → Token → Option ℤ
integer_of is_negative (number n _) = signed_of is_negative (parse_i64 n)
integer_of is_negative _ = none

-- The minus sign and the white space behind it, if they are there.
abbrev pub parse_sign : Parse Bool
parse_sign p =
    if check_token minus p then (some true, skip_whitespace (advance p)) else (some false, p)

unfoldable pub parse_signed_integer : Parse ℤ
unfolding parse_i64 neg_i64
parse_signed_integer p =
    if is_at_end p
    then (none, p)
    else ◌>>=◌ parse_sign (λ is_negative. read_token (integer_of is_negative)) p

abbrev pub positive_of : Token → Option ℕ
positive_of (number n _) = parse_u64 n
positive_of _ = none

unfoldable pub parse_positive_integer : Parse ℕ
unfolding parse_u64
parse_positive_integer = read_token positive_of
