-- ===== src/Index/Filtered.antt =====
-- The two readers of a filter predicate against each other.
use rust_sqlpackage.Prelude.{
  ℕ, zero, suc, ◌+◌, ◌≤◌, ◌<◌, min, ◌≡◌, refl, ap, ◌∙◌, inl, inr, Bool, true, false, not, ◌||◌,
  none, List, [], ◌∷◌, ◌++◌, append-nil, append_assoc, arith, leb, if◌then◌else◌, Bool-cases,
  length, take_while, drop_while, length-append, drop-append, take-append, trim_matches, trim,
}
use rust_sqlpackage.Token.{Token, Word, word, r_paren, semi_colon, Sqlparser}
use rust_sqlpackage.TokenParser.{is_keyword, same_kind, skip_whitespace, remaining}
use rust_sqlpackage.TokenParser.Cursor.{
  cursor, skip_whitespace-cursor, remaining-cursor, is_at_end-cursor, check_token-cursor,
  check_keyword-cursor, advance-cursor, pos-cursor, tokens-cursor, skip_blank,
}
use rust_sqlpackage.Index.Predicate.{
  tokens_to_predicate_string, tokens_to_string, is_stop, predicate_loop, not_empty,
  parse_filter_predicate, predicate_at, scan_where,
}

-- The tokens up to the first that ends a predicate, and those from it on.
abbrev pub body : List Token → List Token
body = take_while (λ t. not (is_stop t))

abbrev pub rest_behind : List Token → List Token
rest_behind = drop_while (λ t. not (is_stop t))

pos_behind :
    (b : List Token) (t : Token) (ts : List Token)
    → (cursor b (t ∷ ts)).pos + 1 ≡ length (b ++ t ∷ [])
pos_behind b t ts = omega (arith, pos-cursor b (t ∷ ts), length-append b (t ∷ []))

predicate_loop-cursor :
    (f : ℕ) (b ts : List Token)
    → length ts ≤ f
    → predicate_loop f (length b) (cursor b ts)
      ≡ (length (b ++ body ts), cursor (b ++ body ts) (rest_behind ts))
unfolding predicate_loop is_stop
predicate_loop-cursor zero b [] k = simp append-nil
predicate_loop-cursor zero b (t ∷ ts) k = elim k [ ]
predicate_loop-cursor (suc f) b [] k = simp (is_at_end-cursor, append-nil)
predicate_loop-cursor (suc f) b (t ∷ ts) k = elim (Bool-cases (is_keyword "WITH" t)) [
  | inl with ↦ simp (is_at_end-cursor, check_keyword-cursor, check_token-cursor, with, append-nil)
  | inr other ↦ elim (Bool-cases (same_kind semi_colon t)) [
    | inl semi ↦
        simp (is_at_end-cursor, check_keyword-cursor, check_token-cursor, other, semi, append-nil)
    | inr more ↦
        rw
          (
            is_at_end-cursor b (t ∷ ts),
            check_keyword-cursor b (t ∷ ts),
            check_token-cursor b (t ∷ ts),
            other,
            more,
          )
          (rw (pos_behind b t ts, advance-cursor b t ts)
            (predicate_loop-cursor f (b ++ t ∷ []) ts (omega arith) ∙ simp append_assoc))
  ]
]

min_left : (m n : ℕ) → m ≤ n → min m n ≡ m
min_left m n h = omega arith

slice-body :
    (lib : Sqlparser) (b us vs : List Token)
    → tokens_to_string lib (length b) (length (b ++ us)) (cursor (b ++ us) vs)
      ≡ tokens_to_predicate_string lib us
unfolding tokens_to_string
slice-body lib b us vs = rw (
  tokens-cursor (b ++ us) vs,
  min_left (length (b ++ us)) (length ((b ++ us) ++ vs))
      (omega (arith, length-append (b ++ us) vs)),
  take-append (b ++ us) vs,
  drop-append b us,
)

loop_enough :
    (b ts : List Token)
    → predicate_loop (remaining (cursor b ts)) (cursor b ts).pos (cursor b ts)
      ≡ (length (b ++ body ts), cursor (b ++ body ts) (rest_behind ts))
loop_enough b ts =
    ap (λ n. predicate_loop (remaining (cursor b ts)) n (cursor b ts)) (pos-cursor b ts)
    ∙ predicate_loop-cursor (remaining (cursor b ts)) b ts (omega (arith, remaining-cursor b ts))

at_most : (m n : ℕ) → m ≤ n → leb m n ≡ true
at_most m n h = ground arith

past : (m n : ℕ) → n < m → leb m n ≡ false
past m n h = ground arith

printed :
    (lib : Sqlparser) (b us vs : List Token)
    → (if leb (length (b ++ us)) (length b)
        then none
        else not_empty
            (trim (tokens_to_string lib (length b) (length (b ++ us)) (cursor (b ++ us) vs))))
      ≡ not_empty (trim (tokens_to_predicate_string lib us))
unfolding not_empty tokens_to_predicate_string trim_matches
printed lib b [] vs = rw (append-nil b, at_most (length b) (length b) (omega arith))
printed lib b (u ∷ us) vs = rw (
  past (length (b ++ u ∷ us)) (length b) (omega (arith, length-append b (u ∷ us))),
  slice-body lib b (u ∷ us) vs,
)

both {ℓ} :
    {A B : Type ℓ} (c : Bool) (a a' : A) (b : B)
    → ◌≡◌ {A = A × B} (if◌then◌else◌ {A = A × B} c (a, b) (a', b)) (if c then a else a', b)
both true a a' b = refl
both false a a' b = refl

pub parse_filter_predicate-cursor :
    (lib : Sqlparser) (b ts : List Token)
    → parse_filter_predicate lib (cursor b ts)
      ≡ (predicate_at lib ts, cursor (b ++ body ts) (rest_behind ts))
unfolding parse_filter_predicate predicate_at predicate_loop not_empty cursor
parse_filter_predicate-cursor lib b ts = simp (loop_enough, pos-cursor, both, printed)

-- A closing parenthesis is among the tokens, and no WHERE.
abbrev has_r_paren : List Token → Bool
has_r_paren [] = false
has_r_paren (t ∷ ts) = same_kind r_paren t || has_r_paren ts

abbrev pub NoWhere : List Token → Type 0
NoWhere [] = Unit
NoWhere (t ∷ ts) = (is_keyword "WHERE" t ≡ false) × NoWhere ts

scan_where-where :
    (lib : Sqlparser) (found : Bool) (before : List Token) (t : Token) (ts : List Token)
    → (found || has_r_paren before) ≡ true
    → NoWhere before
    → is_keyword "WHERE" t ≡ true
    → scan_where lib found (before ++ (t ∷ ts)) ≡ predicate_at lib (skip_blank ts)
unfolding scan_where
scan_where-where lib true [] t ts r n k = rw k
scan_where-where lib false [] t ts r n k = absurd (ground (arith, r))
scan_where-where lib found (x ∷ before) t ts r n k =
    elim (Bool-cases (found || same_kind r_paren x)) [
      | inl e ↦ rw (e, n.0) (scan_where-where lib true before t ts refl n.1 k)
      | inr e ↦ rw e (scan_where-where lib false before t ts (ground (arith, r, e)) n.1 k)
    ]

-- At tokens in front of WHERE that have a closing parenthesis and no other WHERE, the scan of the
-- whole text and the parser, which reads on behind WHERE and its white space, find the same predicate
-- or none, whatever follows.
pub scan_where-parse_filter_predicate :
    (lib : Sqlparser) (before b : List Token) (w : Word) (ts : List Token)
    → has_r_paren before ≡ true
    → NoWhere before
    → is_keyword "WHERE" (word w) ≡ true
    → scan_where lib false (before ++ (word w ∷ ts))
      ≡ (parse_filter_predicate lib (skip_whitespace (cursor b ts))).0
scan_where-parse_filter_predicate lib before b w ts r n k =
    scan_where-where lib false before (word w) ts r n k
    ∙ simp (skip_whitespace-cursor, parse_filter_predicate-cursor)
