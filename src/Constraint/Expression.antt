-- ===== src/Constraint/Expression.antt =====
-- The expression of a CHECK constraint.
use rust_sqlpackage.Prelude.{
  ℕ, zero, suc, ◌≤◌, ◌≡◌, refl, ap, ◌∙◌, false, some, List, [], ◌∷◌, ◌++◌, append-nil, append_assoc,
  arith, ◌==◌, if◌then◌else◌, length, is_nil, Text, trim,
}
use rust_sqlpackage.Token.{Token, l_paren, r_paren, Sqlparser, discriminant}
use rust_sqlpackage.Identifier.Format.{format_token}
use rust_sqlpackage.TokenParser.{TokenParser, remaining}
use rust_sqlpackage.TokenParser.Cursor.{
  cursor, advance-cursor, current_token-cursor, is_at_end-cursor, remaining-cursor,
}
use rust_sqlpackage.TokenParser.Groups.{concat_tokens}
use rust_sqlpackage.TokenParser.Groups.Balanced.{
  Balanced, nil, plain, group, opens, closes, group_of,
}
use rust_sqlpackage.TokenParser.Groups.Sound.{l_paren_of_opens, r_paren_of_closes}
use rust_sqlpackage.Preprocess.Replace.{attempt_laws}
use rust_sqlpackage.Constraint.{content_loop, nesting, content_of, parse_parenthesized_expression}

module _ (lib : Sqlparser) where
  concat_tokens-append :
      (xs ys : List Token)
      → concat_tokens lib (xs ++ ys) ≡ concat_tokens lib xs ++ concat_tokens lib ys
  unfolding concat_tokens
  concat_tokens-append [] ys = refl
  concat_tokens-append (x ∷ xs) ys = simp (concat_tokens-append xs ys, append_assoc)

  -- The loop over the tokens themselves.
  content_at : ℕ → Text → List Token → List Token → Text × TokenParser
  content_at d acc b [] = (acc, cursor b [])
  content_at d acc b (t ∷ ts) =
      let rest = content_at (nesting d t) (acc ++ content_of lib d t) (b ++ t ∷ []) ts in
      if d == 0 then (acc, cursor b (t ∷ ts)) else rest

  content_loop-at :
      (f d : ℕ) (acc : Text) (b ts : List Token)
      → length ts ≤ f
      → content_loop lib f d acc (cursor b ts) ≡ content_at d acc b ts
  unfolding content_loop content_at
  content_loop-at zero d acc b [] h = refl
  content_loop-at zero d acc b (t ∷ ts) h = elim h [ ]
  content_loop-at (suc f) d acc b [] h = rw (is_at_end-cursor b [])
  content_loop-at (suc f) d acc b (t ∷ ts) h =
      let ih =
        content_loop-at f (nesting d t) (acc ++ content_of lib d t) (b ++ t ∷ []) ts
          (omega arith) in
      rw (is_at_end-cursor b (t ∷ ts), current_token-cursor b (t ∷ ts), advance-cursor b t ts)
        (ap (λ r. if d == 0 then (acc, cursor b (t ∷ ts)) else r) ih)

  at_zero : (acc : Text) (b ts : List Token) → content_at 0 acc b ts ≡ (acc, cursor b ts)
  unfolding content_at
  at_zero acc b [] = refl
  at_zero acc b (t ∷ ts) = refl

  -- Inside a group every token adds its text, and only its own parentheses change the depth.
  module _ (d : ℕ) (acc : Text) (b ts : List Token) where
    open_inside :
        content_at (suc d) acc b (l_paren ∷ ts)
        ≡ content_at (suc (suc d)) (acc ++ format_token lib l_paren) (b ++ l_paren ∷ []) ts
    unfolding content_at format_token
    open_inside = ground arith

    close_inside :
        content_at (suc (suc d)) acc b (r_paren ∷ ts)
        ≡ content_at (suc d) (acc ++ format_token lib r_paren) (b ++ r_paren ∷ []) ts
    unfolding content_at format_token
    close_inside = ground arith

    plain_inside :
        (t : Token)
        → opens t ≡ false
        → closes t ≡ false
        → content_at (suc d) acc b (t ∷ ts)
          ≡ content_at (suc d) (acc ++ format_token lib t) (b ++ t ∷ []) ts
    unfolding content_at discriminant
    plain_inside l_paren ho hc = ground arith
    plain_inside r_paren ho hc = ground arith
    plain_inside _ ho hc = ground arith

  inside-Balanced :
      {inside : List Token}
      → Balanced inside
      → (d : ℕ) (acc : Text) (b ts : List Token)
      → content_at (suc d) acc b (inside ++ ts)
        ≡ content_at (suc d) (acc ++ concat_tokens lib inside) (b ++ inside) ts
  unfolding concat_tokens
  inside-Balanced nil d acc b ts = simp append-nil
  inside-Balanced (plain {t} {ts = us} ho hc rest) d acc b ts =
      plain_inside d acc b _ t ho hc ∙ inside-Balanced rest d _ (b ++ t ∷ []) ts ∙ simp append_assoc
  inside-Balanced (group o c inside us ho hc hi rest) d acc b ts =
      rw (l_paren_of_opens o ho, r_paren_of_closes c hc)
        (simp append_assoc (
          open_inside d acc b _
          ∙ inside-Balanced hi (suc d) _ _ (r_paren ∷ (us ++ ts))
          ∙ close_inside d _ _ (us ++ ts)
          ∙ inside-Balanced rest d _ _ ts
          ∙ simp (append_assoc, concat_tokens-append)))

  pub content_loop-Balanced :
      {inside : List Token}
      → Balanced inside
      → (b ts : List Token)
      → content_loop lib
          (remaining (cursor b (inside ++ (r_paren ∷ ts))))
          1
          []
          (cursor b (inside ++ (r_paren ∷ ts)))
        ≡ (concat_tokens lib inside, cursor (b ++ (inside ++ r_paren ∷ [])) ts)
  unfolding content_at
  content_loop-Balanced {inside} bal b ts =
      let us = inside ++ (r_paren ∷ ts) in
      content_loop-at (remaining (cursor b us)) 1 [] b us (omega (arith, remaining-cursor b us))
      ∙ inside-Balanced bal 0 [] b (r_paren ∷ ts)
      ∙ at_zero (concat_tokens lib inside ++ []) ((b ++ inside) ++ r_paren ∷ []) ts
      ∙ simp (append-nil, append_assoc)

  -- A balanced group is read whole: its text is that of the tokens inside, without white space around
  -- it, if anything is left then.
  pub parse_parenthesized_expression-Balanced :
      {inside : List Token}
      → Balanced inside
      → is_nil (trim (concat_tokens lib inside)) ≡ false
      → (b ts : List Token)
      → parse_parenthesized_expression lib (cursor b (l_paren ∷ (inside ++ (r_paren ∷ ts))))
        ≡ (some (trim (concat_tokens lib inside)), cursor (b ++ group_of inside) ts)
  unfolding parse_parenthesized_expression discriminant
  parse_parenthesized_expression-Balanced bal e b ts =
      simp (attempt_laws, content_loop-Balanced bal, e)
