-- ===== src/Preprocess/Attempts.antt =====
-- How far the attempts of the preprocessor at one position move the parser.
use rust_sqlpackage.Prelude.{
  ℕ, zero, suc, ◌+◌, ◌≡◌, inl, inr, Bool, true, false, not, ◌||◌, none, some, [], ◌++◌, ◌==◌,
  leb→le, Bool-cases, Option-cases, length, get_elem?_past, Text,
}
use rust_sqlpackage.Identifier.Format.{format_token_sql_cow}
use rust_sqlpackage.Token.{Token, l_paren, comma, Sqlparser, is_whitespace_token}
use rust_sqlpackage.TokenParser.{
  TokenParser, Parse, continue, exec, ◌>>◌, is_at_end, advance, skip_whitespace, current_token,
  check_token, current_is, remaining,
}
use rust_sqlpackage.TokenParser.Cursor.{IsInside}
use rust_sqlpackage.TokenParser.Bounds.{
  Moves, Moves-refl, Moves-trans, advance-Moves, skip_whitespace-Moves,
}
use rust_sqlpackage.TokenParser.Bounds.Methods.{Moves-if}
use rust_sqlpackage.Preprocess.Steps.{
  require_or_reset, collect_whitespace_loop, collect_whitespace, binary_max_from, expression_loop,
  parse_parenthesized_expression, skip_leading_comma, default_for_from, depth_step, expression_text,
}
use rust_sqlpackage.Preprocess.Safe.{
  Safe, Result-of_Moves, continue-Result, Safe-bind, Safe-of_Moves, advance-Safe,
  skip_whitespace-Safe, refuse-Safe, of_option-Safe, pure-Safe, reset-Result, require_or_reset-Safe,
  take_value-Result, parse_identifier-Safe,
}

collect_whitespace_loop-Moves :
    (f : ℕ) (acc : Text) (p : TokenParser)
    → IsInside p
    → Moves p (collect_whitespace_loop f acc p).1
unfolding collect_whitespace_loop
collect_whitespace_loop-Moves zero acc p h = Moves-refl p h
collect_whitespace_loop-Moves (suc f) acc p h =
    let m = advance-Moves p h in
    elim (Option-cases (current_token p)) [
      | inl e ↦ rw (e, collect_whitespace_loop) (Moves-refl p h)
      | inr (t, e) ↦ elim (Bool-cases (is_whitespace_token t)) [
        | inl blank ↦
            rw (e, collect_whitespace_loop)
              (rw blank (
                Moves-trans m (
                  collect_whitespace_loop-Moves f (acc ++ format_token_sql_cow t) (advance p)
                    m.inside)))
        | inr other ↦ rw (e, collect_whitespace_loop) (rw other (Moves-refl p h))
      ]
    ]

expression_loop-Moves :
    (f d : ℕ) (acc : Text) (p : TokenParser) → IsInside p → Moves p (expression_loop f d acc p).2
unfolding expression_loop
expression_loop-Moves zero d acc p h = Moves-refl p h
expression_loop-Moves (suc f) d acc p h =
    let m = advance-Moves p h in
    elim (Bool-cases (is_at_end p || d == 0)) [
      | inl e ↦ rw e (Moves-refl p h)
      | inr e ↦ rw e (elim (Option-cases (current_token p)) [
        | inl n ↦ rw (n, expression_loop) m
        | inr (t, n) ↦
            rw (n, expression_loop)
              (Moves-trans m (
                expression_loop-Moves f (depth_step d t) (acc ++ expression_text d t) (advance p)
                  m.inside))
      ])
    ]

skip_leading_comma-Moves : (p : TokenParser) → IsInside p → Moves p (skip_leading_comma p)
skip_leading_comma-Moves p h =
    let m = advance-Moves p h in
    Moves-if (check_token comma p) p (skip_whitespace (advance p)) p
      (Moves-trans m (skip_whitespace-Moves (advance p) m.inside)) (Moves-refl p h)

parse_parenthesized_expression-Moves :
    (p : TokenParser) → IsInside p → Moves p (parse_parenthesized_expression p).1
unfolding parse_parenthesized_expression
parse_parenthesized_expression-Moves p h =
    let m = advance-Moves p h in
    let q = advance p in
    elim (Bool-cases (not (check_token l_paren p))) [
      | inl e ↦ rw e (Moves-refl p h)
      | inr e ↦ rw e (Moves-trans m (expression_loop-Moves (remaining q) 1 [] q m.inside))
    ]

module _ (start : ℕ) where
  collect_whitespace-Safe : Safe 0 start collect_whitespace
  unfolding collect_whitespace
  collect_whitespace-Safe = record {
    apply =
        λ p i s. Result-of_Moves start p _ s (collect_whitespace_loop-Moves (remaining p) [] p i);
  }

  parse_parenthesized_expression-Safe : Safe 0 start parse_parenthesized_expression
  parse_parenthesized_expression-Safe = record {
    apply = λ p i s. Result-of_Moves start p _ s (parse_parenthesized_expression-Moves p i);
  }

  -- A test that only a token can pass, the step over that token, and what comes then.
  step_over {ℓ} :
      {A : Type ℓ} (j : ℕ) (test : TokenParser → Bool) (k : Parse A)
      → ((p : TokenParser) → test p ≡ true → is_at_end p ≡ false)
      → Safe j start k
      → Safe (1 + j) start (require_or_reset start test >> (exec advance >> k))
  unfolding continue
  step_over j test k h hk = record {
    apply = λ p i s. elim (Bool-cases (test p)) [
      | inl e ↦ rw e (
          continue-Result {0, ℓ} 1 j start (λ _. k) p (some tt, advance p)
            (take_value-Result start (some tt) p i s (h p e)) (λ _. hk))
      | inr e ↦ rw e (reset-Result start (1 + j) p i s)
    ];
  }

current_token_at_end : (p : TokenParser) → is_at_end p ≡ true → current_token p ≡ none
unfolding is_at_end current_token
current_token_at_end p h = get_elem?_past p.tokens p.pos (leb→le (length p.tokens) p.pos h)

check_token_at : (t : Token) (p : TokenParser) → check_token t p ≡ true → is_at_end p ≡ false
unfolding check_token
check_token_at t p h = elim (Bool-cases (is_at_end p)) [
  | inr e ↦ e
  | inl e ↦ cc (rw (current_token_at_end p e, current_is) at h)
]

module _ (lib : Sqlparser) (start : ℕ) where
  pub binary_max_from-Safe : Safe 1 start (binary_max_from lib start)
  unfolding binary_max_from
  binary_max_from-Safe = Safe-bind 0 1 start _ _ (refuse-Safe start _) λ _.
      Safe-bind 0 1 start _ _ (refuse-Safe start _) λ _.
        Safe-bind 0 1 start _ _ (of_option-Safe start _) λ name.
          Safe-bind 0 1 start _ _ (advance-Safe start) λ _.
            Safe-bind 0 1 start _ _ (collect_whitespace-Safe start) λ ws.
              step_over start 0 (check_token l_paren) _ (check_token_at l_paren) (
                Safe-bind 0 0 start _ _ (skip_whitespace-Safe start) λ _.
                  Safe-bind 0 0 start _ _ (require_or_reset-Safe start _) λ _.
                    Safe-bind 0 0 start _ _ (advance-Safe start) λ _.
                      Safe-bind 0 0 start _ _ (skip_whitespace-Safe start) λ _.
                        Safe-bind 0 0 start _ _ (require_or_reset-Safe start _)
                          λ _. Safe-bind 0 0 start _ _ (advance-Safe start) λ _. pure-Safe start _)

module _ (start : ℕ) where
  pub default_for_from-Safe : Safe 2 start (default_for_from start)
  unfolding default_for_from
  default_for_from-Safe = Safe-bind 0 2 start _ _ (refuse-Safe start _) λ _.
      Safe-bind 0 2 start _ _ (Safe-of_Moves start skip_leading_comma skip_leading_comma-Moves) λ _.
        Safe-bind 0 2 start _ _ (require_or_reset-Safe start _) λ _.
          Safe-bind 0 2 start _ _ (advance-Safe start) λ _.
            Safe-bind 0 2 start _ _ (skip_whitespace-Safe start) λ _.
              Safe-bind 1 1 start _ _ (parse_identifier-Safe start) λ name.
                Safe-bind 0 1 start _ _ (require_or_reset-Safe start _) λ _.
                  Safe-bind 0 1 start _ _ (skip_whitespace-Safe start) λ _.
                    Safe-bind 0 1 start _ _ (require_or_reset-Safe start _) λ _.
                      Safe-bind 0 1 start _ _ (advance-Safe start) λ _.
                        Safe-bind 0 1 start _ _ (skip_whitespace-Safe start) λ _.
                          Safe-bind 0 1 start _ _ (require_or_reset-Safe start _) λ _.
                            Safe-bind 0 1 start _ _ (parse_parenthesized_expression-Safe start) λ e.
                              Safe-bind 0 1 start _ _ (skip_whitespace-Safe start) λ _.
                                Safe-bind 0 1 start _ _ (require_or_reset-Safe start _) λ _.
                                  Safe-bind 0 1 start _ _ (advance-Safe start) λ _.
                                    Safe-bind 0 1 start _ _ (skip_whitespace-Safe start) λ _.
                                      Safe-bind 1 0 start _ _ (parse_identifier-Safe start) λ c.
                                        Safe-bind 0 0 start _ _ (require_or_reset-Safe start _)
                                          λ _. pure-Safe start _
