-- ===== src/TokenParser/Groups/Sound.antt =====
-- The other half of Balanced: what `consume_parenthesized` accepts.
use rust_sqlpackage.Prelude.{
  ℕ, zero, suc, ◌+◌, ◌≡◌, refl, sym, ap, ◌∙◌, inl, inr, Bool, true, false, Option, none, some, List,
  [], ◌∷◌, ◌++◌, append-nil, append_assoc, arith, if◌then◌else◌, Bool-cases, length, length-append,
  Text,
}
use mathlib.Core.Path.{subst}
use rust_sqlpackage.Token.{Token, l_paren, r_paren, Sqlparser, discriminant}
use rust_sqlpackage.TokenParser.{TokenParser, remaining, advance}
use rust_sqlpackage.TokenParser.Cursor.{cursor, advance-cursor, check_token-cursor}
use rust_sqlpackage.TokenParser.Groups.{consume_parenthesized, tokens_to_string, concat_tokens}
use rust_sqlpackage.TokenParser.Groups.Balanced.{
  opens, closes, Balanced, nil, plain, group, close_at, close_loop-close_at, close_at_plain,
  close_at_open, close_at_close, close_at_last, group_of, tokens_to_string_between,
}

-- Tokens that close `d` groups more than they open.
data Closing : ℕ → List Token → Type 0 where
  done : {ts : List Token} → Balanced ts → Closing zero ts
  more :
      {d : ℕ} (c : Token) (i ts : List Token)
      → closes c ≡ true
      → Balanced i
      → Closing d ts
      → Closing (suc d) (i ++ (c ∷ ts))

Closing-plain :
    {d : ℕ} {ts : List Token} (t : Token)
    → opens t ≡ false
    → closes t ≡ false
    → Closing d ts
    → Closing d (t ∷ ts)
Closing-plain t ho hc (done bal) = done (plain ho hc bal)
Closing-plain t ho hc (more c i ts h bal cl) = more c (t ∷ i) ts h (plain ho hc bal) cl

Closing-group :
    {d : ℕ} {ts : List Token} (o c : Token) (i : List Token)
    → opens o ≡ true
    → closes c ≡ true
    → Balanced i
    → Closing d ts
    → Closing d (o ∷ (i ++ (c ∷ ts)))
Closing-group o c i ho hc bi (done {ts} bal) = done (group o c i ts ho hc bi bal)
Closing-group o c i ho hc bi (more {d} c' i' ts h bal cl) =
    subst (λ x. Closing (suc d) (o ∷ x)) (append_assoc i (c ∷ i') (c' ∷ ts))
      (more c' (o ∷ (i ++ (c ∷ i'))) ts h (group o c i i' ho hc bi bal) cl)

Closing-open :
    {d : ℕ} {ts : List Token} (o : Token) → opens o ≡ true → Closing (suc d) ts → Closing d (o ∷ ts)
Closing-open o ho (more c i ts hc bi cl) = Closing-group o c i ho hc bi cl

-- Where the rounds end at depth one, the tokens that were passed close all but that group.
record Stop (d : ℕ) (b ts : List Token) (q : TokenParser) : Type 0 where
  passed : List Token
  rest : List Token
  last : Token
  last_closes : closes last ≡ true
  splits : ts ≡ passed ++ (last ∷ rest)
  place : q ≡ cursor (b ++ passed) (last ∷ rest)
  closing : Closing d passed

Stop-cons :
    {d d' : ℕ} {ts : List Token} {q : TokenParser} (b : List Token) (t : Token)
    → ((u : List Token) → Closing d' u → Closing d (t ∷ u))
    → Stop d' (b ++ t ∷ []) ts q
    → Stop d b (t ∷ ts) q
Stop-cons b t grow s = record {
  passed = t ∷ s.passed;
  rest = s.rest;
  last = s.last;
  last_closes = s.last_closes;
  splits = ap (◌∷◌ t) s.splits;
  place = s.place ∙ simp append_assoc;
  closing = grow s.passed s.closing;
}

-- At a closing parenthesis the rounds end, or go on one group further out.
Stop-close :
    (d : ℕ) (b : List Token) (t : Token) (ts : List Token) (q : TokenParser)
    → closes t ≡ true
    → ((d' : ℕ) → close_at (suc d') (b ++ t ∷ []) ts ≡ (true, q) → Stop d' (b ++ t ∷ []) ts q)
    → close_at (suc d) b (t ∷ ts) ≡ (true, q)
    → Stop d b (t ∷ ts) q
Stop-close zero b t ts q hc onwards e = record {
  passed = [];
  rest = ts;
  last = t;
  last_closes = hc;
  splits = refl;
  place =
      let at_end : q ≡ cursor b (t ∷ ts) = cc (close_at_last t b ts hc) in at_end ∙ simp append-nil;
  closing = done nil;
}
Stop-close (suc d) b t ts q hc onwards e =
    Stop-cons b t (λ u. more t [] u hc nil) (onwards d (sym (close_at_close t d b ts hc) ∙ e))

close_at-Stop :
    (d : ℕ) (b ts : List Token) (q : TokenParser)
    → close_at (suc d) b ts ≡ (true, q)
    → Stop d b ts q
close_at-Stop d b [] q e = unfold close_at in cc
close_at-Stop d b (t ∷ ts) q e = elim (Bool-cases (opens t)) [
  | inl ho ↦
      Stop-cons b t (λ u. Closing-open t ho)
        (close_at-Stop (suc d) (b ++ t ∷ []) ts q (sym (close_at_open t (suc d) b ts ho) ∙ e))
  | inr ho ↦ elim (Bool-cases (closes t)) [
    | inr hc ↦
        Stop-cons b t (λ u. Closing-plain t ho hc)
          (close_at-Stop d (b ++ t ∷ []) ts q (sym (close_at_plain t (suc d) b ts ho hc) ∙ e))
    | inl hc ↦ Stop-close d b t ts q hc (λ d'. close_at-Stop d' (b ++ t ∷ []) ts q) e
  ]
]

pub l_paren_of_opens : (t : Token) → opens t ≡ true → t ≡ l_paren
unfolding discriminant
l_paren_of_opens l_paren h = refl
l_paren_of_opens (Token.other n s) h = ground arith
l_paren_of_opens _ h = ground arith

pub r_paren_of_closes : (t : Token) → closes t ≡ true → t ≡ r_paren
unfolding discriminant
r_paren_of_closes r_paren h = refl
r_paren_of_closes (Token.other n s) h = ground arith
r_paren_of_closes _ h = ground arith

-- One balanced group stood at the cursor, its text is `s`, and `q` is behind it.
pub record Consumed (lib : Sqlparser) (b ts : List Token) (s : Text) (q : TokenParser)
    : Type 0 where
  pub inside : List Token
  pub rest : List Token
  pub balanced : Balanced inside
  pub splits : ts ≡ group_of inside ++ rest
  pub text : s ≡ concat_tokens lib (group_of inside)
  pub place : q ≡ cursor (b ++ group_of inside) rest

Balanced-of_Closing : {ts : List Token} → Closing 0 ts → Balanced ts
Balanced-of_Closing (done bal) = bal

module _ (lib : Sqlparser) (b : List Token) where
  Consumed-of_Stop :
      (ts : List Token) (s : Text) (q q' : TokenParser)
      → Stop 0 (b ++ l_paren ∷ []) ts q
      → tokens_to_string lib q (length b) (q.pos + 1) ≡ s
      → advance q ≡ q'
      → Consumed lib b (l_paren ∷ ts) s q'
  unfolding cursor
  Consumed-of_Stop ts s q q' stop es eq' =
      let last_is = r_paren_of_closes stop.last stop.last_closes in
      let at_last : q ≡ cursor (b ++ l_paren ∷ stop.passed) (r_paren ∷ stop.rest) =
        stop.place ∙ simp (append_assoc, last_is) in
      record {
        inside = stop.passed;
        rest = stop.rest;
        balanced = Balanced-of_Closing stop.closing;
        splits = rw (stop.splits, last_is) (simp append_assoc);
        text =
            sym es
            ∙ tokens_to_string_between lib q b (group_of stop.passed) stop.rest _
                (rw at_last (simp append_assoc))
                (rw at_last (
                  omega (
                    arith,
                    length-append b (l_paren ∷ stop.passed),
                    length-append stop.passed (r_paren ∷ []),
                  )));
        place =
            sym eq'
            ∙ rw at_last
                (advance-cursor (b ++ l_paren ∷ stop.passed) r_paren stop.rest ∙ simp append_assoc);
      }

  -- What a result says of the rounds that led to it.
  ended_of_some :
      (r : Bool × TokenParser) (n : ℕ) (s : Text) (q : TokenParser)
      → ◌≡◌ {A = Option Text × TokenParser}
          (if r.0
            then (some (tokens_to_string lib r.1 n (r.1.pos + 1)), advance r.1)
            else (none, r.1))
          (some s, q)
      → (r ≡ (true, r.1)) × (tokens_to_string lib r.1 n (r.1.pos + 1) ≡ s) × (advance r.1 ≡ q)
  ended_of_some (true, p) n s q e = (refl, cc, cc)
  ended_of_some (false, p) n s q e = cc

  -- If `consume_parenthesized` returns a text, then a balanced group stood at the cursor.
  pub consume_parenthesized-Consumed :
      (ts : List Token) (s : Text) (q : TokenParser)
      → consume_parenthesized lib (cursor b ts) ≡ (some s, q)
      → Consumed lib b ts s q
  unfolding consume_parenthesized cursor
  consume_parenthesized-Consumed [] s q e =
      let refused : consume_parenthesized lib (cursor b []) ≡ (none, cursor b []) =
        rw (check_token-cursor b [] l_paren) in
      cc refused
  consume_parenthesized-Consumed (t ∷ ts) s q e = elim (Bool-cases (opens t)) [
    | inr ho ↦
        let refused : consume_parenthesized lib (cursor b (t ∷ ts)) ≡ (none, cursor b (t ∷ ts)) =
          rw (check_token-cursor b (t ∷ ts) l_paren) (rw ho) in
        cc refused
    | inl ho ↦
        let runs =
          close_loop-close_at (remaining (cursor b (t ∷ ts))) 0 b (t ∷ ts)
            (omega (arith, length-append b (t ∷ ts)))
          ∙ close_at_open t 0 b ts ho in
        let e' = rw (check_token-cursor b (t ∷ ts) l_paren, ho, runs) at e in
        let (r, es, place) = ended_of_some (close_at 1 (b ++ t ∷ []) ts) (length b) s q e' in
        let r_end = (close_at 1 (b ++ t ∷ []) ts).1 in
        let stop =
          subst (λ x. Stop 0 (b ++ x ∷ []) ts r_end) (l_paren_of_opens t ho)
            (close_at-Stop 0 (b ++ t ∷ []) ts r_end r) in
        rw (l_paren_of_opens t ho) (Consumed-of_Stop ts s r_end q stop es place)
  ]
