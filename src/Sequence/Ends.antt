-- ===== src/Sequence/Ends.antt =====
-- The loop over a sequence's options, on any tokens.
use rust_sqlpackage.Prelude.{
  ℕ, zero, suc, ◌≤◌, ◌≡◌, ap, inl, inr, Bool, true, false, not, ◌&&◌, Option, none, some, arith,
  if◌then◌else◌, Bool-cases, length, codes, ℤ, pos,
}
use rust_sqlpackage.Token.{Keyword, Sqlparser}
use rust_sqlpackage.TokenParser.{
  TokenParser, remaining, is_at_end, skip_whitespace, advance, check_keyword, check_word_ci,
}
use rust_sqlpackage.TokenParser.Cursor.{IsInside}
use rust_sqlpackage.TokenParser.Literals.{parse_data_type_simple, parse_signed_integer}
use rust_sqlpackage.TokenParser.Bounds.{
  Moves, Moves-refl, Moves-trans, advance-Moves, skip_whitespace-Moves,
}
use rust_sqlpackage.TokenParser.Bounds.Methods.Calls.{
  parse_signed_integer-AllMove, parse_data_type_simple-AllMove,
}
use rust_sqlpackage.Sequence.{
  TokenParsedSequence, Parsing, store, past, value_behind, value_behind_keyword, no_option,
  option_at, options_loop, parse_sequence_options, set_start, set_increment, set_min, set_max,
  set_cache, set_cycling, set_no_min, set_no_max, set_data_type,
}

-- The parser of a result has moved on from `p`.
record Lands (p : TokenParser) (s : Parsing) : Type 0 where
  moves : Moves p s.1

module _ {p : TokenParser} where
  Lands-if : {q r : Parsing} (b : Bool) → Lands p q → Lands p r → Lands p (if b then q else r)
  Lands-if true m n = m
  Lands-if false m n = n

  Lands-store {ℓ} :
      {A : Type ℓ} (set : A → TokenParsedSequence → TokenParsedSequence) (s : TokenParsedSequence)
      (r : Option A × TokenParser)
      → Moves p r.1
      → Lands p (store set s r)
  Lands-store set s (none, q) m = record { moves = m }
  Lands-store set s (some a, q) m = record { moves = m }

  Lands-trans : {q : TokenParser} {s : Parsing} → Moves p q → Lands q s → Lands p s
  Lands-trans m l = record { moves = Moves-trans m l.moves }

module _ (p : TokenParser) (i : IsInside p) where
  past-Moves : Moves (advance p) (past p)
  past-Moves = skip_whitespace-Moves (advance p) (advance-Moves p i).inside

  value_behind-Lands :
      (set : ℤ → TokenParsedSequence → TokenParsedSequence) (r : TokenParsedSequence)
      → Lands (advance p) (value_behind set r p)
  value_behind-Lands set r =
      Lands-store set r (parse_signed_integer (past p))
        (Moves-trans past-Moves (parse_signed_integer-AllMove.apply (past p) past-Moves.inside))

  stays : (r : TokenParsedSequence) → Lands (advance p) (r, advance p)
  stays r = record { moves = Moves-refl (advance p) (advance-Moves p i).inside }

value_behind_keyword-Lands :
    (p : TokenParser)
    → IsInside p
    → (k : Keyword)
    → (set : ℤ → TokenParsedSequence → TokenParsedSequence) (r : TokenParsedSequence)
    → Lands (advance p) (value_behind_keyword k set r p)
value_behind_keyword-Lands p i k set r =
    let m = past-Moves p i in
    Lands-if (check_keyword k (past p))
      (Lands-trans (Moves-trans m (advance-Moves (past p) m.inside))
        (value_behind-Lands (past p) m.inside set r))
      (record { moves = m })

no_option-Lands : (r : TokenParsedSequence) (p : TokenParser) → IsInside p → Lands p (no_option r p)
unfolding no_option
no_option-Lands r p i =
    let step = λ (s : TokenParsedSequence). Lands-trans (advance-Moves p i) (stays p i s) in
    Lands-if (check_word_ci (codes "MINVALUE") p) (step (set_no_min r)) (
      Lands-if (check_word_ci (codes "MAXVALUE") p) (step (set_no_max r)) (
        Lands-if (check_keyword "CYCLE" p) (step (set_cycling false r)) (
          Lands-if (check_word_ci (codes "CACHE") p) (step (set_cache (pos 0) r))
            (record { moves = Moves-refl p i }))))

option_at-Lands :
    (lib : Sqlparser) (is_alter : Bool) (r : TokenParsedSequence) (p : TokenParser)
    → IsInside p
    → Lands (advance p) (option_at lib is_alter r p)
unfolding option_at
option_at-Lands lib is_alter r p i =
    let m = past-Moves p i in
    let start = value_behind_keyword-Lands p i "WITH" set_start r in
    let increment = value_behind_keyword-Lands p i "BY" set_increment r in
    let value =
      λ (set : ℤ → TokenParsedSequence → TokenParsedSequence). value_behind-Lands p i set r in
    let typed =
      Lands-store set_data_type r (parse_data_type_simple lib (past p))
        (Moves-trans m ((parse_data_type_simple-AllMove lib).apply (past p) m.inside)) in
    let no = Lands-trans m (no_option-Lands r (past p) m.inside) in
    Lands-if (not is_alter && check_keyword "AS" p) typed (
      Lands-if (not is_alter && check_word_ci (codes "START") p) start (
        Lands-if (is_alter && check_word_ci (codes "RESTART") p) start (
          Lands-if (check_word_ci (codes "INCREMENT") p) increment (
            Lands-if (check_keyword "NO" p) no (
              Lands-if (check_word_ci (codes "MINVALUE") p) (value set_min) (
                Lands-if (check_word_ci (codes "MAXVALUE") p) (value set_max) (
                  Lands-if (check_keyword "CYCLE" p) (stays p i (set_cycling true r)) (
                    Lands-if (check_word_ci (codes "CACHE") p) (value set_cache)
                      (stays p i r)))))))))

fewer :
    (p q r : TokenParser)
    → Moves p q
    → Moves (advance q) r
    → is_at_end q ≡ false
    → (f : ℕ) → remaining p ≤ suc f
    → remaining r ≤ f
unfolding advance is_at_end
fewer p q r w m e f h =
    let len = ap length m.same_tokens in
    let len' = ap length w.same_tokens in ground (arith, w.forward, m.forward, w.inside)

module _ (lib : Sqlparser) (is_alter : Bool) where
  options_loop-ends :
      (f : ℕ) (r : TokenParsedSequence) (p : TokenParser)
      → IsInside p
      → remaining p ≤ f
      → is_at_end (options_loop f lib is_alter r p).1 ≡ true
  unfolding options_loop
  options_loop-ends zero r p i h = unfold is_at_end in ground arith
  options_loop-ends (suc f) r p i h =
      let w = skip_whitespace-Moves p i in
      let q = skip_whitespace p in
      let m = (option_at-Lands lib is_alter r q w.inside).moves in
      let s = option_at lib is_alter r q in
      elim (Bool-cases (is_at_end p)) [
        | inl e ↦ rw e e
        | inr e ↦ elim (Bool-cases (is_at_end q)) [
          | inl e' ↦ rw (e, e') e'
          | inr e' ↦ rw (e, e') (options_loop-ends f s.0 s.1 m.inside (fewer p q s.1 w m e' f h))
        ]
      ]

  -- From any position, on any tokens, reading the options takes all of them: it ends with no token
  -- left.
  pub parse_sequence_options-is_at_end :
      (r : TokenParsedSequence) (p : TokenParser)
      → IsInside p
      → is_at_end (parse_sequence_options lib is_alter r p).1 ≡ true
  unfolding parse_sequence_options
  parse_sequence_options-is_at_end r p i = options_loop-ends (remaining p) r p i (omega arith)
