-- ===== src/Preprocess/Copy.antt =====
-- The rewriting of src/parser/preprocess_parser.rs on tokens with nothing to rewrite.
use rust_sqlpackage.Prelude.{
  ℕ, zero, suc, ◌+◌, ◌≤◌, ◌≡◌, refl, ◌∙◌, inl, inr, Bool, true, false, not, ◌&&◌, ◌||◌, none, List,
  [], ◌∷◌, ◌++◌, append-nil, append_assoc, arith, Bool-cases, length, drop, length-append,
  drop-append, take_while-append-drop_while, Text, codes,
}
use rust_sqlpackage.Identifier.Format.{format_token_sql_cow}
use rust_sqlpackage.Token.{Token, comma, is_whitespace_token, Sqlparser}
use rust_sqlpackage.TokenParser.{
  TokenParser, from_tokens, is_keyword, is_word_ci, same_kind, set_pos,
}
use rust_sqlpackage.TokenParser.Cursor.{
  cursor, head_is, skip_blank, blanks, skip_whitespace-cursor, advance-cursor, check_token-cursor,
  current_token-cursor, is_at_end-cursor,
}
use rust_sqlpackage.Preprocess.{PreprocessState, step, copy_step, run, preprocess}
use rust_sqlpackage.Preprocess.Steps.{
  ExtractedDefaultConstraint, default_for_from, try_parse_default_for, is_string_token,
  try_parse_binary_max, binary_max_from, is_trailing_comma, closes_after_blanks,
}
use rust_sqlpackage.Preprocess.Replace.{cow_text, attempt_laws}

abbrev pub starts_binary : Token → Bool
starts_binary t = is_word_ci (codes "BINARY") t || is_word_ci (codes "VARBINARY") t

-- A token that starts no binary type, no constraint and no trailing comma, and a list of such.
pub record IsCopied (t : Token) (ts : List Token) : Type 0 where
  pub no_binary : starts_binary t ≡ false
  pub no_constraint : is_keyword "CONSTRAINT" t ≡ false
  pub no_trailing_comma : (same_kind comma t && closes_after_blanks ts) ≡ false

abbrev pub AllCopied : List Token → Type 0
AllCopied [] = Unit
AllCopied (t ∷ ts) = IsCopied t ts × AllCopied ts

set_pos-cursor :
    (b ts b' ts' : List Token)
    → b' ++ ts' ≡ b ++ ts
    → set_pos (cursor b ts).pos (cursor b' ts') ≡ cursor b ts
unfolding set_pos cursor
set_pos-cursor b ts b' ts' e = rw e

drop_next :
    (b : List Token) (t : Token) (ts : List Token)
    → drop ((cursor b (t ∷ ts)).pos + 1) (cursor b (t ∷ ts)).tokens ≡ ts
unfolding cursor
drop_next b t ts =
    let e : length b + 1 ≡ length (b ++ t ∷ []) = omega (arith, length-append b (t ∷ [])) in
    let cut : b ++ (t ∷ ts) ≡ (b ++ t ∷ []) ++ ts = simp append_assoc in
    rw (e, cut) (drop-append (b ++ t ∷ []) ts)

pub is_trailing_comma-cursor :
    (b : List Token) (t : Token) (ts : List Token)
    → is_trailing_comma (cursor b (t ∷ ts)) ≡ same_kind comma t && closes_after_blanks ts
unfolding is_trailing_comma
is_trailing_comma-cursor b t ts =
    rw (check_token-cursor b (t ∷ ts) comma, drop_next b t ts)
      (elim (Bool-cases (same_kind comma t)) [ inl e ↦ rw e | inr e ↦ rw e ])

-- The attempt at a binary type fails at any other token, and moves nothing.
pub try_parse_binary_max_fails :
    (lib : Sqlparser) (b : List Token) (t : Token) (ts : List Token)
    → starts_binary t ≡ false
    → try_parse_binary_max lib (cursor b (t ∷ ts)) ≡ (none, cursor b (t ∷ ts))
unfolding try_parse_binary_max binary_max_from
try_parse_binary_max_fails lib b t ts h =
    let named : (not (is_word_ci (codes "BINARY") t) && not (is_word_ci (codes "VARBINARY") t))
        ≡ true =
      ground arith in
    elim (Bool-cases (is_string_token t)) [
      | inl str ↦ simp (attempt_laws, str)
      | inr other ↦ simp (attempt_laws, other, named)
    ]

-- No constraint begins behind a comma where no token is the keyword.
no_constraint_behind :
    (ts : List Token) → AllCopied ts → head_is (is_keyword "CONSTRAINT") (skip_blank ts) ≡ false
no_constraint_behind [] h = refl
no_constraint_behind (t ∷ ts) h = elim (Bool-cases (is_whitespace_token t)) [
  | inl blank ↦ rw blank (no_constraint_behind ts h.1)
  | inr other ↦ rw other (h.0).no_constraint
]

try_parse_default_for_fails :
    (b : List Token) (t : Token) (ts : List Token)
    → IsCopied t ts
    → AllCopied ts
    → try_parse_default_for (cursor b (t ∷ ts)) ≡ (none, cursor b (t ∷ ts))
unfolding try_parse_default_for default_for_from
try_parse_default_for_fails b t ts h hs = elim (Bool-cases (is_string_token t)) [
  | inl str ↦ simp (attempt_laws, str)
  | inr other ↦ elim (Bool-cases (same_kind comma t)) [
    | inl c ↦
        simp (attempt_laws, other, c, skip_whitespace-cursor, no_constraint_behind ts hs)
          (rw (
            set_pos-cursor b (t ∷ ts) (b ++ t ∷ blanks ts) (skip_blank ts)
              (simp (append_assoc, take_while-append-drop_while))))
    | inr c ↦
        simp (attempt_laws, other, c, h.no_constraint)
          (rw (set_pos-cursor b (t ∷ ts) b (t ∷ ts) refl))
  ]
]

set_pos-from_tokens : (ts : List Token) → set_pos 0 (from_tokens ts) ≡ cursor [] ts
unfolding set_pos cursor
set_pos-from_tokens ts = refl

abbrev pub state : Text → List ExtractedDefaultConstraint → TokenParser → PreprocessState
state o e p = record { output = o; extracted = e; base = p }

module _ (lib : Sqlparser) (e : List ExtractedDefaultConstraint) where
  step-IsCopied :
      (o : Text) (b : List Token) (t : Token) (ts : List Token)
      → IsCopied t ts
      → AllCopied ts
      → step lib (state o e (cursor b (t ∷ ts)))
        ≡ state (o ++ format_token_sql_cow t) e (cursor (b ++ t ∷ []) ts)
  unfolding step copy_step
  step-IsCopied o b t ts h hs =
      rw
        (
          try_parse_binary_max_fails lib b t ts h.no_binary,
          try_parse_default_for_fails b t ts h hs,
          is_trailing_comma-cursor b t ts,
        )
        (rw (h.no_trailing_comma, current_token-cursor b (t ∷ ts), advance-cursor b t ts))

  run-AllCopied :
      (f : ℕ) (o : Text) (b ts : List Token)
      → length ts ≤ f
      → AllCopied ts
      → run lib f (state o e (cursor b ts)) ≡ state (o ++ cow_text ts) e (cursor (b ++ ts) [])
  unfolding run cow_text
  run-AllCopied zero o b [] h a = simp append-nil
  run-AllCopied zero o b (t ∷ ts) h a = elim h [ ]
  run-AllCopied (suc f) o b [] h a = rw (is_at_end-cursor b []) (simp append-nil)
  run-AllCopied (suc f) o b (t ∷ ts) h a =
      rw (is_at_end-cursor b (t ∷ ts), step-IsCopied o b t ts a.0 a.1)
        (run-AllCopied f (o ++ format_token_sql_cow t) (b ++ t ∷ []) ts (omega arith) a.1
          ∙ simp append_assoc)

-- Where no token starts a binary type, a constraint or a trailing comma, the output is the texts of
-- all tokens in order, and nothing is extracted.
pub preprocess-AllCopied :
    (lib : Sqlparser) (ts : List Token)
    → AllCopied ts
    → preprocess lib (from_tokens ts) ≡ record { sql = cow_text ts; extracted_defaults = [] }
unfolding preprocess
preprocess-AllCopied lib ts a =
    rw (set_pos-from_tokens ts, run-AllCopied lib [] (length ts) [] [] ts (omega arith) a)
