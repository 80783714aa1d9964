-- ===== src/Preprocess/Lost.antt =====
-- `try_parse_default_for` where no identifier follows the keyword, and the loop behind it.
use rust_sqlpackage.Prelude.{◌≡◌, true, false, ◌&&◌, none, List, [], ◌∷◌, ◌++◌, append_assoc, Text}
use rust_sqlpackage.Identifier.Format.{format_token_sql_cow}
use rust_sqlpackage.Token.{Token, Word, word, comma, is_whitespace_token, discriminant, Sqlparser}
use rust_sqlpackage.TokenParser.{is_keyword, same_kind, identifier_of, parse_laws}
use rust_sqlpackage.TokenParser.Cursor.{
  cursor, AllBlank, advance-cursor, current_token-cursor, read_at,
}
use rust_sqlpackage.Preprocess.{step, copy_step}
use rust_sqlpackage.Preprocess.Steps.{
  ExtractedDefaultConstraint, default_for_from, try_parse_default_for, is_string_token,
  closes_after_blanks,
}
use rust_sqlpackage.Preprocess.Replace.{attempt_laws}
use rust_sqlpackage.Preprocess.Copy.{
  starts_binary, try_parse_binary_max_fails, is_trailing_comma-cursor, state,
}

module _ (c : Word) (ws : List Token) (t : Token) (b ts : List Token) where
  try_parse_default_for_lost :
      is_keyword "CONSTRAINT" (word c) ≡ true
      → AllBlank ws
      → is_whitespace_token t ≡ false
      → identifier_of t ≡ none
      → try_parse_default_for (cursor b (word c ∷ (ws ++ (t ∷ ts))))
        ≡ (none, cursor (b ++ word c ∷ ws) (t ∷ ts))
  unfolding try_parse_default_for default_for_from is_string_token discriminant
  try_parse_default_for_lost hc hw ht hi =
      simp (attempt_laws, hc) (rw (hi, read_at) (simp parse_laws))

  -- A round of the loop at a `CONSTRAINT` that no identifier follows writes only the token behind the
  -- white space: the keyword and the white space are missing from the output.
  pub step_lost :
      (lib : Sqlparser) (o : Text) (e : List ExtractedDefaultConstraint)
      → is_keyword "CONSTRAINT" (word c) ≡ true
      → starts_binary (word c) ≡ false
      → AllBlank ws
      → is_whitespace_token t ≡ false
      → identifier_of t ≡ none
      → (same_kind comma t && closes_after_blanks ts) ≡ false
      → step lib (state o e (cursor b (word c ∷ (ws ++ (t ∷ ts)))))
        ≡ state (o ++ format_token_sql_cow t) e (cursor (b ++ word c ∷ (ws ++ t ∷ [])) ts)
  unfolding step copy_step
  step_lost lib o e hc hb hw ht hi hn =
      rw
        (
          try_parse_binary_max_fails lib b (word c) (ws ++ (t ∷ ts)) hb,
          try_parse_default_for_lost hc hw ht hi,
        )
        (rw (is_trailing_comma-cursor (b ++ word c ∷ ws) t ts) (
          rw hn (
            rw
              (
                current_token-cursor (b ++ word c ∷ ws) (t ∷ ts),
                advance-cursor (b ++ word c ∷ ws) t ts,
              )
              (simp append_assoc))))
