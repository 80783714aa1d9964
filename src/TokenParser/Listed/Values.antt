-- ===== src/TokenParser/Listed/Values.antt =====
-- The list of string literals, on any tokens in front of the closing parenthesis.
use rust_sqlpackage.Prelude.{
  ℕ, zero, suc, ◌+◌, ◌<◌, ◌≡◌, refl, sym, ap, ◌∙◌, inl, inr, true, false, Option, none, some, List,
  [], ◌∷◌, ◌++◌, append-nil, append_assoc, arith, if◌then◌else◌, Bool-cases, length, length-append,
  Text,
}
use rust_sqlpackage.Token.{Token, r_paren, discriminant, is_whitespace_token}
use rust_sqlpackage.TokenParser.{
  TokenParser, advance, check_token, current_token, same_kind, remaining, skip_whitespace,
}
use rust_sqlpackage.TokenParser.Cursor.{
  cursor, skip_whitespace-cursor, advance-cursor, check_token-cursor, current_token-cursor,
  remaining-cursor,
}
use rust_sqlpackage.TokenParser.Listed.{listed_string, string_list_loop, parse_string_list}

-- The values of all tokens, one behind the other.
unfoldable pub listed_strings : List Token → List Text
listed_strings [] = []
listed_strings (t ∷ ts) = listed_string t ++ listed_strings ts

-- No closing parenthesis among the tokens.
abbrev pub NoneCloses : List Token → Type 0
NoneCloses [] = Unit
NoneCloses (t ∷ ts) = (same_kind r_paren t ≡ false) × NoneCloses ts

skip_whitespace_blank :
    (t : Token) (b ts : List Token)
    → is_whitespace_token t ≡ true
    → skip_whitespace (cursor b (t ∷ ts)) ≡ skip_whitespace (cursor (b ++ t ∷ []) ts)
skip_whitespace_blank t b ts h =
    rw (skip_whitespace-cursor b (t ∷ ts), skip_whitespace-cursor (b ++ t ∷ []) ts, h)
      (simp append_assoc)

listed_string_blank : (t : Token) → is_whitespace_token t ≡ true → listed_string t ≡ []
unfolding is_whitespace_token
listed_string_blank (Token.single_quoted_string s) h = cc
listed_string_blank (Token.number n l) h = cc
listed_string_blank _ h = refl

-- A round behind its white space.
list_round : ℕ → List Text → TokenParser → Option (List Text) × TokenParser
list_round f values q =
    let next = λ (t : Token). string_list_loop f (values ++ listed_string t) (advance q) in
    if check_token r_paren q
    then (some values, advance q)
    else elim (current_token q) [ none ↦ (some values, q) | some t ↦ next t ]

string_list_loop-round :
    (f : ℕ) (values : List Text) (p : TokenParser)
    → string_list_loop (suc f) values p ≡ list_round f values (skip_whitespace p)
unfolding string_list_loop list_round
string_list_loop-round f values p = refl

string_list_loop_blank :
    (f : ℕ) (values : List Text) (t : Token) (b ts : List Token)
    → is_whitespace_token t ≡ true
    → string_list_loop (suc f) values (cursor b (t ∷ ts))
      ≡ string_list_loop (suc f) values (cursor (b ++ t ∷ []) ts)
string_list_loop_blank f values t b ts h =
    string_list_loop-round f values (cursor b (t ∷ ts))
    ∙ ap (list_round f values) (skip_whitespace_blank t b ts h)
    ∙ sym (string_list_loop-round f values (cursor (b ++ t ∷ []) ts))

list_round_token :
    (f : ℕ) (values : List Text) (t : Token) (b ts : List Token)
    → same_kind r_paren t ≡ false
    → list_round f values (cursor b (t ∷ ts))
      ≡ string_list_loop f (values ++ listed_string t) (cursor (b ++ t ∷ []) ts)
unfolding list_round
list_round_token f values t b ts hc =
    rw (check_token-cursor b (t ∷ ts) r_paren, current_token-cursor b (t ∷ ts), hc)
      (ap (string_list_loop f (values ++ listed_string t)) (advance-cursor b t ts))

string_list_loop_token :
    (f : ℕ) (values : List Text) (t : Token) (b ts : List Token)
    → is_whitespace_token t ≡ false
    → same_kind r_paren t ≡ false
    → string_list_loop (suc f) values (cursor b (t ∷ ts))
      ≡ string_list_loop f (values ++ listed_string t) (cursor (b ++ t ∷ []) ts)
string_list_loop_token f values t b ts hw hc =
    let q : skip_whitespace (cursor b (t ∷ ts)) ≡ cursor b (t ∷ ts) =
      skip_whitespace-cursor b (t ∷ ts) ∙ rw hw (simp append-nil) in
    string_list_loop-round f values (cursor b (t ∷ ts))
    ∙ ap (list_round f values) q
    ∙ list_round_token f values t b ts hc

module _ (rest : List Token) where
  string_list_loop-listed_strings :
      (f : ℕ) (values : List Text) (b inside : List Token)
      → NoneCloses inside
      → length inside < f
      → string_list_loop f values (cursor b (inside ++ (r_paren ∷ rest)))
        ≡ (some (values ++ listed_strings inside), cursor (b ++ (inside ++ r_paren ∷ [])) rest)
  unfolding string_list_loop listed_strings is_whitespace_token discriminant
  string_list_loop-listed_strings zero values b inside h k = elim k [ ]
  string_list_loop-listed_strings (suc f) values b [] h k =
      rw
        (
          skip_whitespace-cursor b (r_paren ∷ rest),
          check_token-cursor (b ++ []) (r_paren ∷ rest) r_paren,
          advance-cursor (b ++ []) r_paren rest,
        )
        (simp append-nil)
  string_list_loop-listed_strings (suc f) values b (t ∷ ts) h k =
      elim (Bool-cases (is_whitespace_token t)) [
        | inl blank ↦
            string_list_loop_blank f values t b (ts ++ (r_paren ∷ rest)) blank
            ∙ string_list_loop-listed_strings (suc f) values (b ++ t ∷ []) ts h.1 (omega arith)
            ∙ simp (append_assoc, listed_string_blank t blank)
        | inr other ↦
            string_list_loop_token f values t b (ts ++ (r_paren ∷ rest)) other h.0
            ∙ string_list_loop-listed_strings f (values ++ listed_string t) (b ++ t ∷ []) ts h.1
                (omega arith)
            ∙ simp append_assoc
      ]

-- Up to the first closing parenthesis, the strings and numbers among the tokens are the values, in
-- order and whatever stands between them, and the parser stops behind that parenthesis.
pub parse_string_list-listed_strings :
    (b inside rest : List Token)
    → NoneCloses inside
    → parse_string_list (cursor b (inside ++ (r_paren ∷ rest)))
      ≡ (some (listed_strings inside), cursor (b ++ (inside ++ r_paren ∷ [])) rest)
unfolding parse_string_list
parse_string_list-listed_strings b inside rest h =
    let ts = inside ++ (r_paren ∷ rest) in
    string_list_loop-listed_strings rest (remaining (cursor b ts) + 1) [] b inside h
      (omega (arith, remaining-cursor b ts, length-append inside (r_paren ∷ rest)))
