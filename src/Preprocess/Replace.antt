-- ===== src/Preprocess/Replace.antt =====
-- The attempt at `BINARY(MAX)` and `VARBINARY(MAX)`.
use rust_sqlpackage.Prelude.{
  ℕ, zero, suc, ◌+◌, ◌-◌, ◌*◌, ◌^◌, ◌/◌, ◌%◌, ◌≤◌, ◌<◌, min, String, ◌≡◌, refl, sym, ap, ◌∙◌, ◌≢◌,
  ◌↔◌, ◌⊎◌, inl, inr, Bool, true, false, not, ◌&&◌, ◌||◌, Option, none, some, List, [], ◌∷◌, ◌++◌,
  map, append-nil, append_assoc, arith, ltb, leb, ◌==◌, if◌then◌else◌, ltb→lt, lt→ltb, leb→le,
  ==_iff, tests, Bool-cases, Option-cases, length, get_elem?, head?, is_nil, take, drop, take_while,
  drop_while, length-append, take-append-drop, length-take, length-drop, take-take, take_all,
  get_elem?-append, drop-append, take-append, take_while-append-drop_while, Text, codes,
  to_ascii_lowercase, to_ascii_uppercase, eq_ignore_ascii_case, is_whitespace, trim_matches, trim,
  ℤ, pos, negsuc, parse_i64, parse_u64, neg_i64,
}
use rust_sqlpackage.Identifier.Format.{format_token_sql_cow}
use rust_sqlpackage.Token.{
  Token, Word, word, l_paren, r_paren, Sqlparser, is_whitespace_token, discriminant,
}
use rust_sqlpackage.TokenParser.{
  TokenParser, remaining, parse_laws, Parse, set_pos, is_word_ci, is_keyword, check_word_ci,
}
use rust_sqlpackage.TokenParser.Cursor.{
  current_is-cursor, remaining-cursor, cursor_laws, cursor, head_is, AllBlank,
  skip_whitespace-blanks, advance-cursor, check_token-cursor, check_keyword-cursor,
  check_word_ci-cursor, current_token-cursor,
}
use rust_sqlpackage.Preprocess.Steps.{
  binary_max_from, word_value_of, collect_whitespace, collect_whitespace_loop, try_parse_binary_max,
  is_string_literal, get_word_value, binary_max_sentinel, is_string_token,
}

-- The texts of tokens, one behind the other, as the output has them.
unfoldable pub cow_text : List Token → Text
cow_text [] = []
cow_text (t ∷ ts) = format_token_sql_cow t ++ cow_text ts

pub is_string_literal-cursor :
    (b ts : List Token) → is_string_literal (cursor b ts) ≡ head_is is_string_token ts
unfolding is_string_literal
is_string_literal-cursor b ts = current_is-cursor is_string_token b ts

pub get_word_value-cursor :
    (b ts : List Token) → get_word_value (cursor b ts) ≡ word_value_of (head? ts)
unfolding get_word_value
get_word_value-cursor b ts = rw (current_token-cursor b ts)

module _ (t : Token) (ts : List Token) (solid : is_whitespace_token t ≡ false) where
  collect_whitespace_loop-blanks :
      (f : ℕ) (acc : Text) (b ws : List Token)
      → AllBlank ws
      → length ws < f
      → collect_whitespace_loop f acc (cursor b (ws ++ (t ∷ ts)))
        ≡ (acc ++ cow_text ws, cursor (b ++ ws) (t ∷ ts))
  unfolding collect_whitespace_loop cow_text
  collect_whitespace_loop-blanks zero acc b ws h k = elim k [ ]
  collect_whitespace_loop-blanks (suc f) acc b [] h k =
      rw (current_token-cursor b (t ∷ ts), collect_whitespace_loop) (rw solid (simp append-nil))
  collect_whitespace_loop-blanks (suc f) acc b (w ∷ ws) h k =
      rw
        (
          current_token-cursor b (w ∷ (ws ++ (t ∷ ts))),
          advance-cursor b w (ws ++ (t ∷ ts)),
          collect_whitespace_loop,
        )
        (rw h.0 (
          collect_whitespace_loop-blanks f (acc ++ format_token_sql_cow w) (b ++ w ∷ []) ws h.1
            (omega arith)
          ∙ simp append_assoc))

  pub collect_whitespace-blanks :
      (b ws : List Token)
      → AllBlank ws
      → collect_whitespace (cursor b (ws ++ (t ∷ ts)))
        ≡ (some (cow_text ws), cursor (b ++ ws) (t ∷ ts))
  unfolding collect_whitespace
  collect_whitespace-blanks b ws h =
      let run =
        collect_whitespace_loop-blanks (remaining (cursor b (ws ++ (t ∷ ts)))) [] b ws h
          (omega (arith, remaining-cursor b (ws ++ (t ∷ ts)), length-append ws (t ∷ ts))) in
      rw run

pub ruleset attempt_laws = (
  is_string_literal-cursor, get_word_value-cursor, collect_whitespace-blanks,
  skip_whitespace-blanks, parse_laws, cursor_laws, append_assoc,
)

-- `type ( MAX )`, with white space between.
abbrev pub max_type : Word → Word → List Token → List Token → List Token → List Token
max_type w m ws₁ ws₂ ws₃ = word w ∷ (ws₁ ++ (l_paren ∷ (ws₂ ++ (word m ∷ (ws₃ ++ (r_paren ∷ []))))))

module _ (lib : Sqlparser) (w m : Word) (b ws₁ ws₂ ws₃ rest : List Token) where
  -- At `BINARY(MAX)` or `VARBINARY(MAX)`, in any case and with any white space, the attempt succeeds:
  -- it returns the type's name in upper case, the white space behind it and the size in parentheses,
  -- and stops behind the closing parenthesis.
  pub try_parse_binary_max-max_type :
      (is_word_ci (codes "BINARY") (word w) || is_word_ci (codes "VARBINARY") (word w)) ≡ true
      → is_keyword "MAX" (word m) ≡ true
      → AllBlank ws₁
      → AllBlank ws₂
      → AllBlank ws₃
      → try_parse_binary_max lib (cursor b (max_type w m ws₁ ws₂ ws₃ ++ rest)) ≡ (
        some (
            lib.to_uppercase w.value
            ++ (cow_text ws₁ ++ (codes "(" ++ (binary_max_sentinel ++ codes ")")))),
        cursor (b ++ max_type w m ws₁ ws₂ ws₃) rest,
      )
  unfolding try_parse_binary_max binary_max_from is_string_token is_whitespace_token discriminant
  try_parse_binary_max-max_type h g h₁ h₂ h₃ =
      let named : (not (is_word_ci (codes "BINARY") (word w))
            && not (is_word_ci (codes "VARBINARY") (word w)))
          ≡ false =
        ground arith in
      simp (attempt_laws, named, g)
