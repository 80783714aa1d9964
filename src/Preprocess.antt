-- ===== src/Preprocess.antt =====
-- src/parser/preprocess_parser.rs: the rewriting of a script's tokens before it is parsed. `Scan` has
-- the test whether it is needed, `Steps` the attempts at a position, this file the loop over them.
pub mod Scan
pub mod Steps
pub mod Replace
pub mod Extract
pub mod Copy
pub mod Lost
pub mod Safe
pub mod Attempts
pub mod Ends
use rust_sqlpackage.Prelude.{
  ℕ, zero, suc, ◌+◌, ◌*◌, ◌/◌, ◌%◌, Bool, ltb, if◌then◌else◌, not, Option, none, some, List, [],
  ◌∷◌, ◌++◌, length, Text,
}
use rust_sqlpackage.Identifier.Format.{format_token_sql_cow}
use rust_sqlpackage.Token.{Token, Sqlparser}
use rust_sqlpackage.TokenParser.{TokenParser, new, is_at_end, set_pos, current_token, advance}
use Scan.{needs_preprocessing}
use Steps.{
  ExtractedDefaultConstraint, try_parse_binary_max, try_parse_default_for, is_trailing_comma,
}

pub record TokenPreprocessResult : Type 0 where
  pub sql : Text
  pub extracted_defaults : List ExtractedDefaultConstraint

-- What the loop carries: the output so far and the parser.
pub record PreprocessState : Type 0 where
  pub output : Text
  pub extracted : List ExtractedDefaultConstraint
  pub base : TokenParser

abbrev pub token_text : Option Token → Text
token_text none = []
token_text (some t) = format_token_sql_cow t

-- The end of a round, where both attempts have failed.
unfoldable pub copy_step : PreprocessState → PreprocessState
copy_step s =
    if is_trailing_comma s.base
    then record s { base = advance s.base }
    else record s { output = s.output ++ token_text (current_token s.base); base = advance s.base }

abbrev pub default_step :
    PreprocessState → Option ExtractedDefaultConstraint × TokenParser → PreprocessState
default_step s (some d, p) = record s { extracted = s.extracted ++ d ∷ []; base = p }
default_step s (none, p) = copy_step (record s { base = p })

abbrev pub binary_step : PreprocessState → Option Text × TokenParser → PreprocessState
binary_step s (some r, p) = record s { output = s.output ++ r; base = p }
binary_step s (none, p) = default_step (record s { base = p }) (try_parse_default_for p)

-- One round of the loop.
unfoldable pub step : Sqlparser → PreprocessState → PreprocessState
step lib s = binary_step s (try_parse_binary_max lib s.base)

unfoldable pub run : Sqlparser → ℕ → PreprocessState → PreprocessState
run lib zero s = s
run lib (suc f) s = let rest = run lib f (step lib s) in if is_at_end s.base then s else rest

-- The fuel is a round for each token.
unfoldable pub preprocess : Sqlparser → TokenParser → TokenPreprocessResult
preprocess lib p =
    let start : PreprocessState = record { output = []; extracted = []; base = set_pos 0 p } in
    let s : PreprocessState = run lib (length p.tokens) start in
    record { sql = s.output; extracted_defaults = s.extracted }

-- `str::as_bytes`: the UTF-8 bytes of code points
abbrev utf8 : ℕ → Text
utf8 c =
    if ltb c 0x80
    then c ∷ []
    else if ltb c 0x800
    then (0xc0 + c / 64) ∷ (0x80 + c % 64) ∷ []
    else if ltb c 0x10000
    then (0xe0 + c / 4096) ∷ (0x80 + c / 64 % 64) ∷ (0x80 + c % 64) ∷ []
    else (0xf0 + c / 262144) ∷ (0x80 + c / 4096 % 64) ∷ (0x80 + c / 64 % 64) ∷ (0x80 + c % 64) ∷ []

unfoldable pub as_bytes : Text → Text
as_bytes [] = []
as_bytes (c ∷ cs) = utf8 c ++ as_bytes cs

abbrev unchanged : Text → TokenPreprocessResult
unchanged sql = record { sql = sql; extracted_defaults = [] }

unfoldable pub preprocess_tsql_tokens : Sqlparser → Text → TokenPreprocessResult
preprocess_tsql_tokens lib sql =
    if not (needs_preprocessing (as_bytes sql))
    then unchanged sql
    else elim (new lib sql) [ none ↦ unchanged sql | some parser ↦ preprocess lib parser ]
