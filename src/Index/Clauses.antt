-- ===== src/Index/Clauses.antt =====
-- INCLUDE, WHERE and WITH as they are written, and the loop that reads them.
use rust_sqlpackage.Prelude.{
  ℕ, suc, ◌≤◌, ◌≡◌, refl, ◌∙◌, inl, inr, true, false, List, [], ◌∷◌, ◌++◌, map, append_assoc, arith,
  Bool-cases, length, is_nil,
}
use rust_sqlpackage.Token.{
  Token, Word, l_paren, r_paren, discriminant, is_whitespace_token, Sqlparser,
}
use rust_sqlpackage.TokenParser.{is_keyword}
use rust_sqlpackage.TokenParser.Cursor.{cursor, AllBlank, skip_blank, is_at_end-cursor}
use rust_sqlpackage.TokenParser.Gaps.{aside, aside-AllBlank}
use rust_sqlpackage.Storage.Partition.{upper, storage_laws}
use rust_sqlpackage.Constraint.Names.{names_tokens}
use rust_sqlpackage.Index.{TokenParsedIndex}
use rust_sqlpackage.Index.Predicate.{is_stop, predicate_at}
use rust_sqlpackage.Index.Options.{options_loop, include_clause, where_clause, set_predicate}
use rust_sqlpackage.Index.Filtered.{body, rest_behind, parse_filter_predicate-cursor}
use rust_sqlpackage.Index.Columns.{parse_simple_column_list-names}
use rust_sqlpackage.Index.With.{Setting, AreSettings, apply_settings, settings_tokens}
use rust_sqlpackage.Index.Settings.{parse_with_options-settings}

-- Tokens that a predicate can have.
abbrev pub NoStop : List Token → Type 0
NoStop [] = Unit
NoStop (t ∷ ts) = (is_stop t ≡ false) × NoStop ts

-- The end of the tokens, or a token behind which a predicate ends.
abbrev pub Stops : List Token → Type 0
Stops [] = Unit
Stops (t ∷ ts) = is_stop t ≡ true

pub body-stop : (ps ts : List Token) → NoStop ps → Stops ts → body (ps ++ ts) ≡ ps
body-stop [] [] n k = refl
body-stop [] (t ∷ ts) n k = rw k
body-stop (p ∷ ps) ts n k = rw n.0 (rw (body-stop ps ts n.1 k))

rest-stop : (ps ts : List Token) → NoStop ps → Stops ts → rest_behind (ps ++ ts) ≡ ts
rest-stop [] [] n k = refl
rest-stop [] (t ∷ ts) n k = rw k
rest-stop (p ∷ ps) ts n k = rw n.0 (rest-stop ps ts n.1 k)

pub shorter : (ts : List Token) → length (skip_blank ts) ≤ length ts
shorter [] = omega arith
shorter (t ∷ ts) = elim (Bool-cases (is_whitespace_token t)) [
  | inl blank ↦ rw blank (omega (arith, shorter ts))
  | inr other ↦ rw other (omega arith)
]

-- From one result and rest of the tokens the loop gets to another, with rounds enough left.
abbrev pub Leads :
    Sqlparser → TokenParsedIndex → List Token → TokenParsedIndex → List Token → Type 0
Leads lib r ts r' ts' =
    (f : ℕ) (b : List Token)
    → length (skip_blank ts) ≤ f
    → (f' : ℕ) × (b' : List Token) × (length (skip_blank ts') ≤ f')
      × (options_loop lib f r (cursor b ts) ≡ options_loop lib f' r' (cursor b' ts'))

module _ (lib : Sqlparser) where
  pub both_lead :
      (r r' r'' : TokenParsedIndex) (ts ts' ts'' : List Token)
      → Leads lib r ts r' ts'
      → Leads lib r' ts' r'' ts''
      → Leads lib r ts r'' ts''
  both_lead r r' r'' ts ts' ts'' h k f b e =
      let (f', b', e', p) = h f b e in let (f'', b'', e'', q) = k f' b' e' in (f'', b'', e'', p ∙ q)

  pub not_nil : (ws : List Token) (t : Token) (ts : List Token) → is_nil (ws ++ (t ∷ ts)) ≡ false
  not_nil [] t ts = refl
  not_nil (w ∷ ws) t ts = refl

module _ (lib : Sqlparser) (g : ℕ → List Token) (h : (i : ℕ) → AllBlank (g i)) where
  pub round_include :
      (f : ℕ) (c : Word) (ds : List Word) (ws : List Token) (r : TokenParsedIndex)
      (b ts : List Token)
      → AllBlank ws
      → options_loop lib (suc f) r (
          cursor b (
            ws
            ++ (upper "INCLUDE"
                ∷ (g 51
                    ++ (l_paren ∷ (aside g 23 ++ names_tokens (aside g) c ds (r_paren ∷ ts)))))))
        ≡ options_loop lib f
            (record r { include_columns = c.value ∷ map (λ (d : Word). d.value) ds })
            (cursor
              ((b ++ ws)
                ++ upper "INCLUDE"
                  ∷ (g 51
                      ++ (l_paren ∷ (aside g 23 ++ names_tokens (aside g) c ds (r_paren ∷ [])))))
              ts)
  unfolding options_loop include_clause is_keyword is_whitespace_token discriminant
  round_include f c ds ws r b ts k =
      let h' = aside-AllBlank g h in
      simp (
        storage_laws,
        h,
        k,
        is_at_end-cursor,
        not_nil lib,
        parse_simple_column_list-names (aside g) h',
        h',
        append_assoc,
      )

  pub round_where :
      (f : ℕ) (t : Token) (ps ws : List Token) (r : TokenParsedIndex) (b ts : List Token)
      → AllBlank ws
      → is_whitespace_token t ≡ false
      → NoStop (t ∷ ps)
      → Stops ts
      → options_loop lib (suc f) r (cursor b (ws ++ (upper "WHERE" ∷ (g 53 ++ (t ∷ (ps ++ ts))))))
        ≡ options_loop lib f
            (set_predicate r (predicate_at lib (t ∷ (ps ++ ts))))
            (cursor (((b ++ ws) ++ upper "WHERE" ∷ g 53) ++ t ∷ ps) ts)
  unfolding options_loop where_clause is_keyword is_whitespace_token discriminant
  round_where f t ps ws r b ts k solid n s = simp (
    storage_laws,
    h,
    k,
    solid,
    is_at_end-cursor,
    not_nil lib,
    parse_filter_predicate-cursor,
    body-stop (t ∷ ps) ts n s,
    rest-stop (t ∷ ps) ts n s,
    append_assoc,
  )

  pub round_with :
      (f : ℕ) (s : Setting) (ss : List Setting) (ws : List Token) (r : TokenParsedIndex)
      (b ts : List Token)
      → AllBlank ws
      → AreSettings s ss
      → options_loop lib (suc f) r (
          cursor b (
            ws
            ++ (upper "WITH"
                ∷ (g 55 ++ (l_paren ∷ (g 39 ++ settings_tokens g s ss (r_paren ∷ ts)))))))
        ≡ options_loop lib f (apply_settings lib s ss r) (
            cursor
              ((b ++ ws)
                ++ upper "WITH"
                  ∷ (g 55 ++ (l_paren ∷ (g 39 ++ settings_tokens g s ss (r_paren ∷ [])))))
              ts)
  unfolding options_loop is_keyword is_whitespace_token discriminant
  round_with f s ss ws r b ts k v = simp (
    storage_laws,
    h,
    k,
    is_at_end-cursor,
    not_nil lib,
    parse_with_options-settings lib g h,
    v,
    append_assoc,
  )
