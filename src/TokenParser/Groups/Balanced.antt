-- ===== src/TokenParser/Groups/Balanced.antt =====
-- `skip_parenthesized` and `consume_parenthesized` against a grammar of balanced parentheses.
use rust_sqlpackage.Prelude.{
  ℕ, zero, suc, ◌+◌, ◌-◌, ◌≤◌, ◌≡◌, refl, ap, ◌∙◌, Bool, true, false, not, ◌&&◌, some, List, [],
  ◌∷◌, ◌++◌, append-nil, append_assoc, arith, ◌==◌, if◌then◌else◌, length, length-append,
  drop-append, take-append,
}
use rust_sqlpackage.Token.{Token, l_paren, r_paren, Sqlparser, discriminant}
use rust_sqlpackage.TokenParser.{TokenParser, remaining, same_kind}
use rust_sqlpackage.TokenParser.Cursor.{
  cursor, advance-cursor, is_at_end-cursor, check_token-cursor,
}
use rust_sqlpackage.TokenParser.Groups.{
  close_loop, skip_parenthesized, consume_parenthesized, tokens_to_string, concat_tokens,
}

abbrev pub opens : Token → Bool
opens = same_kind l_paren

abbrev pub closes : Token → Bool
closes = same_kind r_paren

-- Tokens in which every parenthesis has its partner.
pub data Balanced : List Token → Type 0 where
  nil : Balanced []
  plain :
      {t : Token} {ts : List Token}
      → opens t ≡ false
      → closes t ≡ false
      → Balanced ts
      → Balanced (t ∷ ts)
  group :
      (o c : Token) (inside ts : List Token)
      → opens o ≡ true
      → closes c ≡ true
      → Balanced inside
      → Balanced ts
      → Balanced (o ∷ (inside ++ (c ∷ ts)))

-- The loop's rounds over the tokens themselves.
abbrev depth_after : ℕ → Token → ℕ
depth_after d t = if opens t then d + 1 else if closes t then d - 1 else d

abbrev ends_at : ℕ → Token → Bool
ends_at d t = not (opens t) && closes t && d == 1

unfoldable pub close_at : ℕ → List Token → List Token → Bool × TokenParser
close_at d b [] = (false, cursor b [])
close_at d b (t ∷ ts) =
    let rest = close_at (depth_after d t) (b ++ t ∷ []) ts in
    if ends_at d t then (true, cursor b (t ∷ ts)) else rest

pub close_loop-close_at :
    (f d : ℕ) (b ts : List Token) → length ts ≤ f → close_loop f d (cursor b ts) ≡ close_at d b ts
unfolding close_loop close_at
close_loop-close_at zero d b [] h = refl
close_loop-close_at zero d b (t ∷ ts) h = elim h [ ]
close_loop-close_at (suc f) d b [] h = rw (is_at_end-cursor b [])
close_loop-close_at (suc f) d b (t ∷ ts) h =
    rw
      (
        is_at_end-cursor b (t ∷ ts),
        check_token-cursor b (t ∷ ts) l_paren,
        check_token-cursor b (t ∷ ts) r_paren,
        advance-cursor b t ts,
      )
      (ground (
        arith,
        close_loop-close_at f (d + 1) (b ++ t ∷ []) ts,
        close_loop-close_at f (d - 1) (b ++ t ∷ []) ts,
        close_loop-close_at f d (b ++ t ∷ []) ts,
      ))

pub not-opens_of_closes : (t : Token) → closes t ≡ true → opens t ≡ false
unfolding discriminant
not-opens_of_closes t h = ground arith

pub close_at_plain :
    (t : Token) (d : ℕ) (b ts : List Token)
    → opens t ≡ false
    → closes t ≡ false
    → close_at d b (t ∷ ts) ≡ close_at d (b ++ t ∷ []) ts
unfolding close_at
close_at_plain t d b ts ho hc = rw (ho, hc)

pub close_at_open :
    (o : Token) (d : ℕ) (b ts : List Token)
    → opens o ≡ true
    → close_at d b (o ∷ ts) ≡ close_at (suc d) (b ++ o ∷ []) ts
unfolding close_at
close_at_open o d b ts ho =
    let e : d + 1 ≡ suc d = omega arith in rw ho (ap (λ n. close_at n (b ++ o ∷ []) ts) e)

pub close_at_close :
    (c : Token) (d : ℕ) (b ts : List Token)
    → closes c ≡ true
    → close_at (suc (suc d)) b (c ∷ ts) ≡ close_at (suc d) (b ++ c ∷ []) ts
unfolding close_at
close_at_close c d b ts hc =
    let e : suc (suc d) - 1 ≡ suc d = omega arith in
    let deep : (suc (suc d) == 1) ≡ false = ground arith in
    rw (not-opens_of_closes c hc, hc, deep) (ap (λ n. close_at n (b ++ c ∷ []) ts) e)

-- The parenthesis that closes the group that was open.
pub close_at_last :
    (c : Token) (b ts : List Token)
    → closes c ≡ true
    → close_at 1 b (c ∷ ts) ≡ (true, cursor b (c ∷ ts))
unfolding close_at
close_at_last c b ts hc = rw (not-opens_of_closes c hc, hc)

-- At a depth that is not zero, balanced tokens are passed over.
close_at-Balanced :
    {inside : List Token}
    → Balanced inside
    → (d : ℕ) (b ts : List Token)
    → close_at (suc d) b (inside ++ ts) ≡ close_at (suc d) (b ++ inside) ts
close_at-Balanced nil d b ts = simp append-nil
close_at-Balanced (plain {t} {ts = us} ho hc rest) d b ts =
    close_at_plain t (suc d) b _ ho hc
    ∙ close_at-Balanced rest d (b ++ t ∷ []) ts
    ∙ simp append_assoc
close_at-Balanced (group o c inside us ho hc hi rest) d b ts =
    close_at_open o (suc d) b _ ho
    ∙ simp append_assoc (
        close_at-Balanced hi (suc d) (b ++ o ∷ []) (c ∷ (us ++ ts))
        ∙ close_at_close c d ((b ++ o ∷ []) ++ inside) (us ++ ts) hc
        ∙ close_at-Balanced rest d (((b ++ o ∷ []) ++ inside) ++ c ∷ []) ts
        ∙ simp append_assoc)

-- The text of a stretch of tokens.
pub tokens_to_string_between :
    (lib : Sqlparser) (p : TokenParser) (b x rest : List Token) (n : ℕ)
    → p.tokens ≡ b ++ (x ++ rest)
    → n ≡ length b + length x
    → tokens_to_string lib p (length b) n ≡ concat_tokens lib x
unfolding tokens_to_string
tokens_to_string_between lib p b x rest n e k =
    let len : n - length b ≡ length x = omega arith in
    rw (e, len, drop-append b (x ++ rest), take-append x rest)

-- The tokens of one parenthesised group.
abbrev pub group_of : List Token → List Token
group_of inside = l_paren ∷ (inside ++ r_paren ∷ [])

module _ {inside : List Token} (bal : Balanced inside) (b rest : List Token) where
  close_loop-group :
      close_loop
        (remaining (cursor b (l_paren ∷ (inside ++ r_paren ∷ rest))))
        0
        (cursor b (l_paren ∷ (inside ++ r_paren ∷ rest)))
      ≡ (true, cursor (b ++ l_paren ∷ inside) (r_paren ∷ rest))
  unfolding discriminant cursor
  close_loop-group =
      close_loop-close_at _ 0 b _
        (omega (arith, length-append b (l_paren ∷ (inside ++ r_paren ∷ rest))))
      ∙ close_at_open l_paren 0 b _ refl
      ∙ close_at-Balanced bal 0 (b ++ l_paren ∷ []) (r_paren ∷ rest)
      ∙ close_at_last r_paren ((b ++ l_paren ∷ []) ++ inside) rest refl
      ∙ simp append_assoc

  -- At a parenthesised group with balanced contents, `skip_parenthesized` stops right behind it.
  pub skip_parenthesized-Balanced :
      skip_parenthesized (cursor b (l_paren ∷ (inside ++ r_paren ∷ rest)))
      ≡ cursor (b ++ group_of inside) rest
  unfolding skip_parenthesized discriminant
  skip_parenthesized-Balanced =
      rw (check_token-cursor b (l_paren ∷ (inside ++ r_paren ∷ rest)) l_paren) (
        rw close_loop-group
          (advance-cursor (b ++ l_paren ∷ inside) r_paren rest ∙ simp append_assoc))

  -- There `consume_parenthesized` returns the group's text, both parentheses included, and stops at
  -- the same place.
  pub consume_parenthesized-Balanced :
      (lib : Sqlparser)
      → consume_parenthesized lib (cursor b (l_paren ∷ (inside ++ r_paren ∷ rest)))
        ≡ (some (concat_tokens lib (group_of inside)), cursor (b ++ group_of inside) rest)
  unfolding consume_parenthesized discriminant cursor
  consume_parenthesized-Balanced lib =
      let q = cursor (b ++ l_paren ∷ inside) (r_paren ∷ rest) in
      rw (check_token-cursor b (l_paren ∷ (inside ++ r_paren ∷ rest)) l_paren) (
        rw close_loop-group (
          rw
            (tokens_to_string_between lib q b (group_of inside) rest (q.pos + 1) (simp append_assoc)
              (omega
                (arith, length-append b (l_paren ∷ inside), length-append inside (r_paren ∷ []))))
            (rw (advance-cursor (b ++ l_paren ∷ inside) r_paren rest) (simp append_assoc))))
