-- ===== src/TokenParser.antt =====
-- `TokenParser` of src/parser/token_parser_base.rs: a vector of tokens with a position. A method on
-- `&self` is a function of the parser; one on `&mut self` returns the new parser, and `Parse A` is a
-- method that returns `Option<A>`: on `none` the parser stays as the failing step left it, as `?`
-- leaves it.
pub mod Cursor
pub mod Gaps
pub mod Bounds
pub mod Literals
pub mod Groups
pub mod Words
pub mod Method
pub mod Listed
use rust_sqlpackage.Prelude.{
  ◌≡◌, refl, ℕ, zero, suc, ◌+◌, ◌-◌, min, Bool, true, false, ◌||◌, ◌==◌, ltb, leb, not,
  if◌then◌else◌, Option, none, some, List, [], ◌∷◌, ◌++◌, length, get_elem?, take, drop, Text,
  codes, String, eq_ignore_ascii_case,
}
use text.Mathlib.Text.{◌==◌ as keyword_eq}
use rust_sqlpackage.Token.{
  Token, Word, Keyword, word, discriminant, is_whitespace_token, Sqlparser, l_paren, r_paren, comma,
  period, semi_colon, single_quoted_string, number,
}

pub record TokenParser : Type 0 where
  pub tokens : List Token
  pub pos : ℕ

abbrev pub Parse {ℓ} : Type ℓ → Type ℓ
Parse A = TokenParser → Option A × TokenParser

abbrev pub pure {ℓ} : {A : Type ℓ} → A → Parse A
pure a p = (some a, p)

abbrev pub fail {ℓ} : {A : Type ℓ} → Parse A
fail p = (none, p)

-- Shut, so that code at an unknown parser keeps its shape in proofs; `continue-some` and
-- `continue-none` run it.
unfoldable pub continue {ℓ κ} :
    {A : Type ℓ} {B : Type κ} → (A → Parse B) → Option A × TokenParser → Option B × TokenParser
continue f (none, p) = (none, p)
continue f (some a, p) = f a p

module _ {ℓ κ} {A : Type ℓ} {B : Type κ} where
  pub continue-some : (f : A → Parse B) (a : A) (p : TokenParser) → continue f (some a, p) ≡ f a p
  unfolding continue
  continue-some f a p = refl

  pub continue-none : (f : A → Parse B) (p : TokenParser) → continue f (none, p) ≡ (none, p)
  unfolding continue
  continue-none f p = refl

  infixl 5 ◌>>=◌ ◌>>◌
  abbrev pub ◌>>=◌ : Parse A → (A → Parse B) → Parse B
  ◌>>=◌ m f p = continue f (m p)

  abbrev pub ◌>>◌ : Parse A → Parse B → Parse B
  m >> k = m >>= λ _. k

-- A step that cannot fail, and a value read off the parser.
abbrev pub exec : (TokenParser → TokenParser) → Parse (Unit {0})
exec f p = (some tt, f p)

abbrev pub asks {ℓ} : {A : Type ℓ} → (TokenParser → A) → Parse A
asks f p = (some (f p), p)

-- `if !test { return None; }`
abbrev pub require : (TokenParser → Bool) → Parse (Unit {0})
require test p = (if test p then some tt else none, p)

-- `if let Some(x) = m { … } else { … }`: the attempt's result as a value.
abbrev pub attempt {ℓ} : {A : Type ℓ} → Parse A → Parse (Option A)
attempt m p = (some (m p).0, (m p).1)

pub new : Sqlparser → Text → Option TokenParser
new lib sql = elim (lib.tokenize sql) [
  | none ↦ none
  | some ts ↦ some (record { tokens = ts; pos = 0 })
]

abbrev pub from_tokens : List Token → TokenParser
from_tokens ts = record { tokens = ts; pos = 0 }

unfoldable pub is_at_end : TokenParser → Bool
is_at_end p = leb (length p.tokens) p.pos

unfoldable pub set_pos : ℕ → TokenParser → TokenParser
set_pos n p = record p { pos = n }

unfoldable pub current_token : TokenParser → Option Token
current_token p = get_elem? p.tokens p.pos

unfoldable pub peek : TokenParser → ℕ → Option Token
peek p offset = get_elem? p.tokens (p.pos + offset)

unfoldable pub advance : TokenParser → TokenParser
unfolding is_at_end
advance p = if not (is_at_end p) then record p { pos = p.pos + 1 } else p

unfoldable pub advance_by : ℕ → TokenParser → TokenParser
advance_by count p = record p { pos = min (p.pos + count) (length p.tokens) }

-- The tokens that are left: the rounds that a scanning loop can make.
abbrev pub remaining : TokenParser → ℕ
remaining p = length p.tokens - p.pos

skip_whitespace_loop : ℕ → TokenParser → TokenParser
skip_whitespace_loop zero p = p
skip_whitespace_loop (suc f) p =
    let rest = skip_whitespace_loop f (advance p) in
    elim (current_token p) [ none ↦ p | some t ↦ if is_whitespace_token t then rest else p ]

unfoldable pub skip_whitespace : TokenParser → TokenParser
unfolding skip_whitespace_loop advance current_token is_whitespace_token
skip_whitespace p = skip_whitespace_loop (remaining p) p

-- A test of the current token; false at the end.
abbrev pub current_is : (Token → Bool) → TokenParser → Bool
current_is test p = elim (current_token p) [ none ↦ false | some t ↦ test t ]

unfoldable pub is_keyword : Keyword → Token → Bool
is_keyword k (word w) = keyword_eq w.keyword k
is_keyword k _ = false

unfoldable pub is_word_ci : Text → Token → Bool
unfolding eq_ignore_ascii_case
is_word_ci s (word w) = eq_ignore_ascii_case w.value s
is_word_ci s _ = false

abbrev pub same_kind : Token → Token → Bool
same_kind expected t = discriminant t == discriminant expected

unfoldable pub check_keyword : Keyword → TokenParser → Bool
unfolding is_keyword current_token
check_keyword k p = current_is (is_keyword k) p

unfoldable pub check_word_ci : Text → TokenParser → Bool
unfolding is_word_ci current_token
check_word_ci s p = current_is (is_word_ci s) p

unfoldable pub check_token : Token → TokenParser → Bool
unfolding discriminant current_token
check_token expected p = current_is (same_kind expected) p

-- `if check { advance; Some(()) } else { None }`
abbrev pub expect : (TokenParser → Bool) → Parse (Unit {0})
expect test = do require test; exec advance

unfoldable pub expect_keyword : Keyword → Parse (Unit {0})
expect_keyword k = expect (check_keyword k)

unfoldable pub expect_word_ci : Text → Parse (Unit {0})
expect_word_ci s = expect (check_word_ci s)

unfoldable pub expect_token : Token → Parse (Unit {0})
expect_token t = expect (check_token t)

-- The shape of the methods that take one token: at the end, or on a token that `read` refuses,
-- nothing happens; otherwise the position moves behind it.
abbrev pub take_value {ℓ} : {A : Type ℓ} → Option A → TokenParser → Option A × TokenParser
take_value none p = (none, p)
take_value (some a) p = (some a, advance p)

abbrev pub read_current {ℓ} : {A : Type ℓ} → (Token → Option A) → Option Token → Option A
read_current read none = none
read_current read (some t) = read t

abbrev pub read_token {ℓ} : {A : Type ℓ} → (Token → Option A) → Parse A
read_token read p =
    if is_at_end p then (none, p) else take_value (read_current read (current_token p)) p

abbrev pub identifier_of : Token → Option Text
identifier_of (word w) = some w.value
identifier_of _ = none

unfoldable pub parse_identifier : Parse Text
unfolding advance current_token is_at_end
parse_identifier = read_token identifier_of

unfoldable pub parse_schema_qualified_name : Parse (Text × Text)
parse_schema_qualified_name = do
  first_ident ← parse_identifier
  exec skip_whitespace
  dot ← asks (check_token period)
  let second = do
    exec advance
    exec skip_whitespace
    second_ident ← parse_identifier
    pure (first_ident, second_ident)
  if dot then second else pure (codes "dbo", first_ident)

pub ruleset parse_laws = (continue-some, continue-none)
