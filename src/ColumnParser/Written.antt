-- ===== src/ColumnParser/Written.antt =====
-- The modifiers of a column, one after the other up to the end of the tokens.
use rust_sqlpackage.Prelude.{
  ℕ, zero, suc, ◌+◌, ◌≤◌, ◌≡◌, refl, ap, ◌∙◌, false, List, [], ◌∷◌, ◌++◌, append-nil, append_assoc,
  arith, length, length-append, codes,
}
use rust_sqlpackage.Token.{Token, Sqlparser, discriminant, is_whitespace_token}
use rust_sqlpackage.TokenParser.{TokenParser, is_keyword, is_word_ci, skip_whitespace, remaining}
use rust_sqlpackage.TokenParser.Cursor.{
  cursor, AllBlank, skip_blank, blanks, skip_whitespace-cursor, is_at_end-cursor, remaining-cursor,
  skip_blank-append,
}
use rust_sqlpackage.TokenParser.Gaps.{later, later-AllBlank}
use rust_sqlpackage.Storage.Partition.{upper, storage_laws}
use rust_sqlpackage.ColumnParser.{
  TokenParsedColumn, Modifiers, Round, at_start, modifiers_loop, modifiers_round,
  parse_column_modifiers,
}
use rust_sqlpackage.ColumnParser.Modifier.{
  Modifier, Clustering, clustering_tokens, first_word, argument_tokens, modifier_tokens, IsModifier,
  Ends, apply, skip_blank_again, no_blanks,
}
use rust_sqlpackage.ColumnParser.Rounds.{round_of, modifier_at-modifier, round-modifier}

-- Modifiers up to the end of the tokens, with the white space in front of each that of `g`.
unfoldable pub modifiers_tokens : (ℕ → List Token) → List Modifier → List Token
modifiers_tokens g [] = g 50
modifiers_tokens g (m ∷ ms) = g 51 ++ modifier_tokens g m (modifiers_tokens (later g) ms)

unfoldable pub apply_all : Sqlparser → List Modifier → Modifiers → Modifiers
apply_all lib [] s = s
apply_all lib (m ∷ ms) s = apply_all lib ms (apply lib m s)

abbrev pub AreModifiers : List Modifier → Type 0
AreModifiers [] = Unit
AreModifiers (m ∷ ms) = IsModifier m × AreModifiers ms

pub skip_blank_all : (ws : List Token) → AllBlank ws → (skip_blank ws ≡ []) × (blanks ws ≡ ws)
skip_blank_all [] h = (refl, refl)
skip_blank_all (w ∷ ws) (h, hs) = let (e, e') = skip_blank_all ws hs in rw h (e, rw e')

-- No modifier begins with CLUSTERED, NONCLUSTERED or COLLATE.
pub no_clustering :
    (m : Modifier)
    → (is_keyword "CLUSTERED" (upper (first_word m)) ≡ false)
      × (is_word_ci (codes "NONCLUSTERED") (upper (first_word m)) ≡ false)
      × (is_word_ci (codes "COLLATE") (upper (first_word m)) ≡ false)
unfolding is_keyword is_word_ci
no_clustering Modifier.identity_plain = (refl, refl, refl)
no_clustering _ = (refl, refl, refl)

clustering_tokens-append :
    (k : Clustering) (ws us ts : List Token)
    → clustering_tokens k ws us ++ ts ≡ clustering_tokens k ws (us ++ ts)
clustering_tokens-append Clustering.clustered ws us ts = simp append_assoc
clustering_tokens-append Clustering.nonclustered ws us ts = simp append_assoc
clustering_tokens-append Clustering.unsaid ws us ts = refl

argument_tokens-append :
    (g : ℕ → List Token) (m : Modifier) (us ts : List Token)
    → argument_tokens g m us ++ ts ≡ argument_tokens g m (us ++ ts)
unfolding argument_tokens
argument_tokens-append g Modifier.identity_plain us ts = refl
argument_tokens-append g Modifier.nullable us ts = refl
argument_tokens-append g Modifier.rowguidcol us ts = refl
argument_tokens-append g Modifier.sparse us ts = refl
argument_tokens-append g Modifier.filestream us ts = refl
argument_tokens-append g Modifier.hidden us ts = refl
argument_tokens-append g Modifier.persisted us ts = refl
argument_tokens-append g _ us ts = simp (append_assoc, clustering_tokens-append)

module _ (lib : Sqlparser) (g : ℕ → List Token) (h : (i : ℕ) → AllBlank (g i)) where
  pub modifiers-Ends : (ms : List Modifier) → Ends (modifiers_tokens g ms)
  unfolding modifiers_tokens discriminant is_whitespace_token
  modifiers-Ends [] = let (e, e') = skip_blank_all (g 50) (h 50) in rw e (refl, refl, refl)
  modifiers-Ends (m ∷ ms) =
      rw
        (skip_blank-append (upper (first_word m))
          (argument_tokens g m (modifiers_tokens (later g) ms)) refl (g 51) (h 51))
        (refl, (no_clustering m).0, (no_clustering m).1)

  -- A round depends on the position only up to the white space behind it.
  modifiers_loop_skipped :
      (f : ℕ) (s : Modifiers) (p q : TokenParser)
      → skip_whitespace p ≡ skip_whitespace q
      → modifiers_loop lib (suc f) s p ≡ modifiers_loop lib (suc f) s q
  unfolding modifiers_loop
  modifiers_loop_skipped f s p q e = ap (modifiers_round lib (modifiers_loop lib f) s) e

  length-modifiers :
      (m : Modifier) (ts : List Token)
      → length (modifier_tokens g m ts) ≡ length (modifier_tokens g m []) + length ts
  length-modifiers m ts = omega (
    arith,
    ap (λ (us : List Token). length us) (argument_tokens-append g m [] ts),
    length-append (argument_tokens g m []) ts,
  )

  at_modifier :
      (m : Modifier) (b ws ts : List Token)
      → AllBlank ws
      → skip_whitespace (cursor b (ws ++ modifier_tokens g m ts))
        ≡ cursor (b ++ ws) (modifier_tokens g m ts)
  unfolding is_whitespace_token
  at_modifier m b ws ts k = simp (storage_laws, k)

  modifiers_round-modifier :
      (rest : Round) (m : Modifier) (s : Modifiers) (b ts : List Token)
      → modifiers_round lib rest s (cursor b (modifier_tokens g m ts))
        ≡ rest
            (round_of lib m s (cursor b (modifier_tokens g m ts))).0
            (round_of lib m s (cursor b (modifier_tokens g m ts))).1
  unfolding modifiers_round
  modifiers_round-modifier rest m s b ts =
      rw (is_at_end-cursor b (modifier_tokens g m ts))
        (rw (modifier_at-modifier lib g h m b ts, modifiers_round))

  -- A round at a modifier, and the white space behind it.
  loop-modifier :
      (m : Modifier) (f : ℕ) (s : Modifiers) (b ts : List Token)
      → IsModifier m
      → Ends ts
      → modifiers_loop lib (suc (suc f)) s (cursor b (g 51 ++ modifier_tokens g m ts))
        ≡ modifiers_loop lib
            (suc f)
            (apply lib m s)
            (cursor ((b ++ g 51) ++ modifier_tokens g m []) ts)
  unfolding modifiers_loop
  loop-modifier m f s b ts k e =
      ap (modifiers_round lib (modifiers_loop lib (suc f)) s) (at_modifier m b (g 51) ts (h 51))
      ∙ modifiers_round-modifier (modifiers_loop lib (suc f)) m s (b ++ g 51) ts
      ∙ ap (λ t. modifiers_round lib (modifiers_loop lib f) t.0 t.1)
          (round-modifier lib g h m s (b ++ g 51) ts k e)

  loop-end :
      (f : ℕ) (s : Modifiers) (b ws : List Token)
      → AllBlank ws
      → modifiers_loop lib (suc f) s (cursor b ws) ≡ (s, cursor (b ++ ws) [])
  unfolding modifiers_loop modifiers_round
  loop-end f s b ws k =
      let (e, e') = skip_blank_all ws k in
      rw (skip_whitespace-cursor b ws) (rw (e, e') (rw (is_at_end-cursor (b ++ ws) [])))

loop-modifiers :
    (lib : Sqlparser) (g : ℕ → List Token) (h : (i : ℕ) → AllBlank (g i)) (ms : List Modifier)
    (f : ℕ) (s : Modifiers) (b : List Token)
    → AreModifiers ms
    → length ms ≤ f
    → modifiers_loop lib (suc f) s (cursor b (modifiers_tokens g ms))
      ≡ (apply_all lib ms s, cursor (b ++ modifiers_tokens g ms) [])
unfolding modifiers_tokens apply_all
loop-modifiers lib g h [] f s b k l = loop-end lib g h f s b (g 50) (h 50)
loop-modifiers lib g h (m ∷ ms) zero s b k l = elim l [ ]
loop-modifiers lib g h (m ∷ ms) (suc f) s b (k, ks) l =
    loop-modifier lib g h m f s b (modifiers_tokens (later g) ms) k
      (modifiers-Ends lib (later g) (later-AllBlank g h) ms)
    ∙ loop-modifiers lib (later g) (later-AllBlank g h) ms f (apply lib m s)
        ((b ++ g 51) ++ modifier_tokens g m []) ks (omega arith)
    ∙ simp (append_assoc, argument_tokens-append)

length-modifiers_tokens :
    (lib : Sqlparser) (g : ℕ → List Token) (h : (i : ℕ) → AllBlank (g i)) (ms : List Modifier)
    → length ms ≤ length (modifiers_tokens g ms)
unfolding modifiers_tokens
length-modifiers_tokens lib g h [] = omega arith
length-modifiers_tokens lib g h (m ∷ ms) = omega (
  arith,
  length-modifiers_tokens lib (later g) (later-AllBlank g h) ms,
  length-modifiers lib g h m (modifiers_tokens (later g) ms),
  length-append (g 51) (modifier_tokens g m (modifiers_tokens (later g) ms)),
)

length-skip_blank :
    (lib : Sqlparser) (g : ℕ → List Token) (h : (i : ℕ) → AllBlank (g i)) (ms : List Modifier)
    → length ms ≤ length (skip_blank (modifiers_tokens g ms))
unfolding modifiers_tokens is_whitespace_token
length-skip_blank lib g h [] = omega arith
length-skip_blank lib g h (m ∷ ms) =
    rw
      (skip_blank-append (upper (first_word m))
        (argument_tokens g m (modifiers_tokens (later g) ms)) refl (g 51) (h 51))
      (omega (
        arith,
        length-modifiers_tokens lib (later g) (later-AllBlank g h) ms,
        length-modifiers lib g h m (modifiers_tokens (later g) ms),
      ))

module _ (lib : Sqlparser) (g : ℕ → List Token) (h : (i : ℕ) → AllBlank (g i)) where
  -- Modifiers in any white space, up to the end of the tokens, set the fields one after the other.
  module _ (c : TokenParsedColumn) (ms : List Modifier) (b : List Token) (k : AreModifiers ms) where
    abbrev pub read : TokenParsedColumn × TokenParser
    read = ((apply_all lib ms (at_start c)).column, cursor (b ++ modifiers_tokens g ms) [])

    pub parse_column_modifiers-modifiers :
        parse_column_modifiers lib c (cursor b (modifiers_tokens g ms)) ≡ read
    unfolding parse_column_modifiers
    parse_column_modifiers-modifiers =
        let q = cursor b (modifiers_tokens g ms) in
        let e : remaining q + 1 ≡ suc (remaining q) = omega arith in
        rw e (
          ap (λ r. (r.0.column, r.1))
            (loop-modifiers lib g h ms (remaining q) (at_start c) b k (
              omega (
                arith,
                remaining-cursor b (modifiers_tokens g ms),
                length-modifiers_tokens lib g h ms,
              ))))

    -- The same behind the white space.
    pub parse_column_modifiers_skipped :
        parse_column_modifiers lib c (skip_whitespace (cursor b (modifiers_tokens g ms))) ≡ read
    unfolding parse_column_modifiers
    parse_column_modifiers_skipped =
        let ts = modifiers_tokens g ms in
        let q = cursor (b ++ blanks ts) (skip_blank ts) in
        let e : remaining q + 1 ≡ suc (remaining q) = omega arith in
        rw (skip_whitespace-cursor b ts) (
          rw e (
            ap (λ r. (r.0.column, r.1))
              (modifiers_loop_skipped lib g h (remaining q) (at_start c) q (cursor b ts)
                  (simp (skip_whitespace-cursor, skip_blank_again, no_blanks, append-nil))
                ∙ loop-modifiers lib g h ms (remaining q) (at_start c) b k (
                    omega (
                      arith,
                      remaining-cursor (b ++ blanks ts) (skip_blank ts),
                      length-skip_blank lib g h ms,
                    )))))
