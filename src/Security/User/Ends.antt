-- ===== src/Security/User/Ends.antt =====
-- The loop over a user's clauses, on any tokens.
use rust_sqlpackage.Prelude.{
  ℕ, zero, suc, ◌≤◌, ◌≡◌, refl, ap, ◌⊎◌, inl, inr, Bool, true, false, Option, none, some, arith,
  if◌then◌else◌, Bool-cases, length,
}
use rust_sqlpackage.Token.{eq}
use rust_sqlpackage.TokenParser.{
  TokenParser, Parse, continue, exec, asks, pure, ◌>>=◌, ◌>>◌, remaining, is_at_end, advance,
  skip_whitespace, check_keyword, check_token,
}
use rust_sqlpackage.TokenParser.Cursor.{IsInside}
use rust_sqlpackage.TokenParser.Bounds.{
  Moves, Moves-refl, Moves-trans, AllMove, AllMove-bind, AllMove-if, asks-AllMove, pure-AllMove,
  advance-Moves, advance-AllMove, skip_whitespace-AllMove, parse_identifier-AllMove,
}
use rust_sqlpackage.Security.User.{
  UserOptions, Block, next_block, for_login, without, from_external, with_default_schema, skip_eq,
  or_else, user_round, user_loop, user_options, no_options,
}

-- A block ends before its first step, or behind a token.
record Tries (block : Block) : Type 0 where
  apply :
      (p : TokenParser) → IsInside p → (block p ≡ (some none, p)) ⊎ Moves (advance p) (block p).1

-- A round takes a token.
record Takes (k : Parse UserOptions) : Type 0 where
  apply : (p : TokenParser) → IsInside p → Moves (advance p) (k p).1

found-Tries :
    (test : TokenParser → Bool) (rest : Block)
    → AllMove rest
    → Tries (asks test >>= λ found. if found then exec advance >> rest else next_block)
unfolding continue
found-Tries test rest m = record {
  apply = λ p i. elim (Bool-cases (test p)) [
    | inl e ↦ inr (rw e (m.apply (advance p) (advance-Moves p i).inside))
    | inr e ↦ inl (rw e)
  ];
}

Takes-AllMove : {k : Parse UserOptions} → Takes k → AllMove k
Takes-AllMove h = record { apply = λ p i. Moves-trans (advance-Moves p i) (h.apply p i) }

module _ (b : Block) (k : Parse UserOptions) (hk : Takes k) where
  otherwise-Moves :
      (p : TokenParser) (r : Option (Option UserOptions) × TokenParser)
      → Moves p r.1
      → Moves p (continue (λ taken. elim taken [ none ↦ k | some s ↦ pure s ]) r).1
  unfolding continue
  otherwise-Moves p (none, q) m = m
  otherwise-Moves p (some none, q) m = Moves-trans m ((Takes-AllMove hk).apply q m.inside)
  otherwise-Moves p (some (some s), q) m = m

  or_else-Takes : Tries b → Takes (or_else b k)
  unfolding or_else continue
  or_else-Takes hb = record {
    apply = λ p i. elim (hb.apply p i) [
      | inl e ↦ rw e (hk.apply p i)
      | inr m ↦ otherwise-Moves (advance p) (b p) m
    ];
  }

next-AllMove : AllMove next_block
next-AllMove = pure-AllMove none

-- A step over a token and the white space behind it.
past {ℓ} : {A : Type ℓ} (k : Parse A) → AllMove k → AllMove (exec skip_whitespace >> k)
past k h = AllMove-bind _ _ skip_whitespace-AllMove λ _. h

over {ℓ} :
    {A : Type ℓ} (k : Parse A) → AllMove k → AllMove (exec advance >> (exec skip_whitespace >> k))
over k h = AllMove-bind _ _ advance-AllMove λ _. past k h

-- A further test inside a block.
asked :
    (test : TokenParser → Bool) (m : Block)
    → AllMove m
    → AllMove (asks test >>= λ b. if b then m else next_block)
asked test m h = AllMove-bind _ _ (asks-AllMove test) λ b. AllMove-if b m next_block h next-AllMove

skip_eq-AllMove : AllMove skip_eq
skip_eq-AllMove = AllMove-bind _ _ (asks-AllMove (check_token eq)) λ b.
    AllMove-if b _ _ (AllMove-bind _ _ advance-AllMove λ _. skip_whitespace-AllMove)
      (pure-AllMove tt)

module _ (s : UserOptions) where
  for_login-Tries : Tries (for_login s)
  unfolding for_login
  for_login-Tries = found-Tries (check_keyword "FOR") _ (
      past _ (
        asked _ _
          (over _ (AllMove-bind _ _ parse_identifier-AllMove λ name. past _ (pure-AllMove _)))))

  without-Tries : Tries (without s)
  unfolding without
  without-Tries = found-Tries _ _ (past _ (asked _ _ (over _ (pure-AllMove _))))

  from_external-Tries : Tries (from_external s)
  unfolding from_external
  from_external-Tries =
      found-Tries _ _ (past _ (asked _ _ (over _ (asked _ _ (over _ (pure-AllMove _))))))

  with_default_schema-Tries : Tries (with_default_schema s)
  unfolding with_default_schema
  with_default_schema-Tries = found-Tries _ _ (
      past _ (
        asked _ _ (
          over _ (
            AllMove-bind _ _ skip_eq-AllMove
              λ _. AllMove-bind _ _ parse_identifier-AllMove λ schema. past _ (pure-AllMove _)))))

  skip-Takes : Takes (exec advance >> pure s)
  unfolding continue
  skip-Takes = record { apply = λ p i. Moves-refl (advance p) (advance-Moves p i).inside }

  user_round-Takes : Takes (user_round s)
  unfolding user_round
  user_round-Takes =
      or_else-Takes _ _
        (or_else-Takes _ _
          (or_else-Takes _ _ (or_else-Takes _ _ skip-Takes with_default_schema-Tries)
            from_external-Tries)
          without-Tries)
        for_login-Tries

-- Refused, or at the end of the tokens.
abbrev pub Ends : {A : Type 0} → Option A × TokenParser → Type 0
Ends r = (r.0 ≡ none) ⊎ (is_at_end r.1 ≡ true)

next-Ends :
    (k : UserOptions → Parse UserOptions) (r : Option UserOptions × TokenParser)
    → ((s : UserOptions) → Ends (k s r.1))
    → Ends (continue k r)
unfolding continue
next-Ends k (none, q) h = inl refl
next-Ends k (some s, q) h = h s

fewer :
    (p q : TokenParser) (f : ℕ)
    → IsInside p
    → Moves (advance p) q
    → is_at_end p ≡ false
    → remaining p ≤ suc f
    → remaining q ≤ f
unfolding advance is_at_end
fewer p q f i m e h = let len = ap length m.same_tokens in ground (arith, m.forward, m.inside)

user_loop-Ends :
    (f : ℕ) (s : UserOptions) (p : TokenParser)
    → IsInside p
    → remaining p ≤ f
    → Ends (user_loop f s p)
unfolding user_loop continue
user_loop-Ends zero s p i h = inr (unfold is_at_end in ground arith)
user_loop-Ends (suc f) s p i h = elim (Bool-cases (is_at_end p)) [
  | inl e ↦ rw e (inr e)
  | inr e ↦
      let m = (user_round-Takes s).apply p i in
      rw e (
        next-Ends (user_loop f) (user_round s p) λ s'.
          user_loop-Ends f s' (user_round s p).1 m.inside (fewer p (user_round s p).1 f i m e h))
]

-- From any position, on any tokens, the loop over the clauses of CREATE USER comes to its end: it is
-- left because a name is missing, or with no token left.
pub user_options-Ends : (p : TokenParser) → IsInside p → Ends (user_options p)
unfolding user_options
user_options-Ends p i = user_loop-Ends (remaining p) no_options p i (omega arith)
