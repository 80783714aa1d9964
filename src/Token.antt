-- ===== src/Token.antt =====
-- The tokens of the `sqlparser` crate as this program's patterns see them, and `Sqlparser`, what the
-- program calls of that crate and of Rust's Unicode tables. A token's span is left out: the modelled
-- code reads only `TokenWithSpan::token`.
use rust_sqlpackage.Prelude.{ℕ, ◌+◌, Bool, Text, String, List, Option}

-- `Keyword` is an enumeration whose members are only compared: a member is its name.
abbrev pub Keyword : Type 0
Keyword = String

pub record Word : Type 0 where
  pub value : Text
  pub quote_style : Option ℕ
  pub keyword : Keyword

-- Every constructor that some pattern or expression of the parser's utilities names. `whitespace`
-- and `dollar_quoted_string` carry the text that their payload displays as, which is all that is
-- read of it. `other n s` is any constructor that is named nowhere, with a number that tells these
-- constructors apart.
pub data Token : Type 0 where
  word : Word → Token
  number : Text → Bool → Token
  char : ℕ → Token
  single_quoted_string national_string_literal hex_string_literal : Text → Token
  double_quoted_string single_quoted_byte_string_literal : Text → Token
  double_quoted_byte_string_literal dollar_quoted_string : Text → Token
  whitespace : Text → Token
  l_paren r_paren l_brace r_brace l_bracket r_bracket : Token
  comma period colon double_colon semi_colon : Token
  eq neq lt gt lt_eq gt_eq spaceship : Token
  plus minus mul div mod_op string_concat : Token
  long_arrow arrow hash_arrow hash_long_arrow : Token
  at_sign sharp ampersand pipe caret tilde exclamation_mark : Token
  other : ℕ → Text → Token

-- `std::mem::discriminant`: only equality of the numbers is used.
unfoldable pub discriminant : Token → ℕ
discriminant (word w) = 0
discriminant (number n l) = 1
discriminant (char c) = 2
discriminant (single_quoted_string s) = 3
discriminant (national_string_literal s) = 4
discriminant (hex_string_literal s) = 5
discriminant (double_quoted_string s) = 6
discriminant (single_quoted_byte_string_literal s) = 7
discriminant (double_quoted_byte_string_literal s) = 8
discriminant (dollar_quoted_string s) = 9
discriminant (whitespace s) = 10
discriminant l_paren = 11
discriminant r_paren = 12
discriminant l_brace = 13
discriminant r_brace = 14
discriminant l_bracket = 15
discriminant r_bracket = 16
discriminant comma = 17
discriminant period = 18
discriminant colon = 19
discriminant double_colon = 20
discriminant semi_colon = 21
discriminant eq = 22
discriminant neq = 23
discriminant lt = 24
discriminant gt = 25
discriminant lt_eq = 26
discriminant gt_eq = 27
discriminant spaceship = 28
discriminant plus = 29
discriminant minus = 30
discriminant mul = 31
discriminant div = 32
discriminant mod_op = 33
discriminant string_concat = 34
discriminant long_arrow = 35
discriminant arrow = 36
discriminant hash_arrow = 37
discriminant hash_long_arrow = 38
discriminant at_sign = 39
discriminant sharp = 40
discriminant ampersand = 41
discriminant pipe = 42
discriminant caret = 43
discriminant tilde = 44
discriminant exclamation_mark = 45
discriminant (other n s) = 46 + n

-- `matches!(t, Token::Whitespace(_))`
unfoldable pub is_whitespace_token : Token → Bool
is_whitespace_token (whitespace s) = Bool.true
is_whitespace_token _ = Bool.false

-- What is called of code that is not the program's.
--   tokenize: `Tokenizer::new(&MsSqlDialect {}, s).tokenize().ok()`
--   display, debug: a token's `Display` and `Debug`
--   to_uppercase: `str::to_uppercase`, of which only its action on ASCII is relied on
pub record Sqlparser : Type 0 where
  pub tokenize : Text → Option (List Token)
  pub display : Token → Text
  pub debug : Token → Text
  pub to_uppercase : Text → Text
