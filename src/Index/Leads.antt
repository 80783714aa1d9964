-- ===== src/Index/Leads.antt =====
-- How the loop reads what stands behind the columns.
use rust_sqlpackage.Prelude.{
  ℕ, zero, suc, ◌≤◌, ◌≡◌, refl, ap, ◌∙◌, inl, inr, true, Option, none, some, List, [], ◌∷◌, ◌++◌,
  append-nil, append_assoc, arith, Bool-cases, length, length-append, Text, trim,
}
use rust_sqlpackage.Token.{
  Token, l_paren, r_paren, discriminant, is_whitespace_token, Sqlparser, Keyword,
}
use rust_sqlpackage.TokenParser.{is_keyword, skip_whitespace, remaining, is_at_end}
use rust_sqlpackage.TokenParser.Cursor.{
  cursor, AllBlank, skip_blank, blanks, skip_blank-append, is_at_end-cursor, skip_whitespace-cursor,
  remaining-cursor,
}
use rust_sqlpackage.ColumnParser.Modifier.{skip_blank_again, no_blanks}
use rust_sqlpackage.TokenParser.Gaps.{aside, aside-AllBlank}
use rust_sqlpackage.Storage.Partition.{upper, storage_laws}
use rust_sqlpackage.Constraint.Names.{names_tokens, names_tokens-append}
use rust_sqlpackage.Index.Settings.{settings_tokens-append}
use rust_sqlpackage.Index.{TokenParsedIndex}
use rust_sqlpackage.Index.Predicate.{is_stop, predicate_at, not_empty, tokens_to_predicate_string}
use rust_sqlpackage.Index.Options.{options_loop, parse_index_options, set_predicate}
use rust_sqlpackage.Index.With.{settings_tokens}
use rust_sqlpackage.Index.Clauses.{
  NoStop, Stops, Leads, both_lead, shorter, round_include, round_where, round_with, body-stop,
  not_nil,
}
use rust_sqlpackage.Index.Tail.{
  Included, Predicate, Settings, IsPredicate, IsSettings, gap_behind, ending, with_clause,
  where_and_with, tail_tokens, with_included, unless_empty, with_filter, predicate_text,
  with_settings, with_tail,
}

module _ (lib : Sqlparser) (g : ℕ → List Token) (h : (i : ℕ) → AllBlank (g i)) where
  gap_behind-AllBlank : (p : Predicate) (i : ℕ) → AllBlank (gap_behind g p i)
  gap_behind-AllBlank none i = h i
  gap_behind-AllBlank (some p) i = tt

  -- A clause that begins with a word needs a round.
  has_round :
      (k : Keyword) (ws us : List Token)
      → AllBlank ws
      → length (skip_blank (ws ++ (upper k ∷ us))) ≡ suc (length us)
  unfolding is_whitespace_token
  has_round k ws us b = ap length (skip_blank-append (upper k) us refl ws b)

  with_clause-Stops :
      (p : Token × List Token) (o : Settings) (e : Option (List Token))
      → Stops (with_clause g (some p) o e)
  unfolding with_clause is_stop is_keyword discriminant
  with_clause-Stops p none none = tt
  with_clause-Stops p none (some us) = refl
  with_clause-Stops p (some s) e = refl

  not_empty_lem : (s : Text) → not_empty s ≡ unless_empty s
  unfolding not_empty
  not_empty_lem [] = refl
  not_empty_lem (c ∷ s) = refl

  set_predicate_lem : (r : TokenParsedIndex) (x : Option Text) → set_predicate r x ≡ with_filter x r
  set_predicate_lem r none = refl
  set_predicate_lem r (some s) = refl

  predicate_at-text :
      (t : Token) (ps : List Token) (o : Settings) (e : Option (List Token))
      → NoStop (t ∷ ps)
      → predicate_at lib (t ∷ (ps ++ with_clause g (some (t, ps)) o e))
        ≡ predicate_text lib (some (t, ps))
  unfolding predicate_at
  predicate_at-text t ps o e n =
      ap (λ ts. not_empty (trim (tokens_to_predicate_string lib ts)))
        (body-stop (t ∷ ps) (with_clause g (some (t, ps)) o e) n (with_clause-Stops (t, ps) o e))
      ∙ not_empty_lem (trim (tokens_to_predicate_string lib (t ∷ ps)))

  -- The rest behind a clause is no longer than what stands behind its first word.
  rest_fits :
      (k : Keyword) (f : ℕ) (ws us xs ts : List Token)
      → AllBlank ws
      → xs ++ ts ≡ us
      → length (skip_blank (ws ++ (upper k ∷ us))) ≤ suc f
      → length (skip_blank ts) ≤ f
  rest_fits k f ws us xs ts b e l =
      omega (arith, l, has_round k ws us b, ap length e, length-append xs ts, shorter ts)

  no_round :
      (k : Keyword) (ws us : List Token)
      → AllBlank ws
      → length (skip_blank (ws ++ (upper k ∷ us))) ≤ 0
      → ⊥
  no_round k ws us b l = omega (arith, l, has_round k ws us b)

  include-Leads :
      (i : Included) (p : Predicate) (o : Settings) (e : Option (List Token)) (r : TokenParsedIndex)
      → Leads lib r (tail_tokens g i p o e) (with_included i r) (where_and_with g p o e)
  unfolding tail_tokens
  include-Leads none p o e r f b l = (f, b, l, refl)
  include-Leads (some (c, ds)) p o e r zero b l = absurd (no_round "INCLUDE" (g 50) _ (h 50) l)
  include-Leads (some (c, ds)) p o e r (suc f) b l =
      let ts = where_and_with g p o e in
      let xs = g 51 ++ (l_paren ∷ (aside g 23 ++ names_tokens (aside g) c ds (r_paren ∷ []))) in
      let us = g 51 ++ (l_paren ∷ (aside g 23 ++ names_tokens (aside g) c ds (r_paren ∷ ts))) in
      let cut : xs ++ ts ≡ us =
        simp (append_assoc, names_tokens-append (aside g) (aside-AllBlank g h)) in
      (
        f,
        _,
        rest_fits "INCLUDE" f (g 50) us xs ts (h 50) cut l,
        round_include lib g h f c ds (g 50) r b ts (h 50),
      )

  where-Leads :
      (p : Predicate) (o : Settings) (e : Option (List Token)) (r : TokenParsedIndex)
      → IsPredicate p
      → Leads lib r
          (where_and_with g p o e)
          (with_filter (predicate_text lib p) r)
          (with_clause g p o e)
  unfolding where_and_with
  where-Leads none o e r v f b l = (f, b, l, refl)
  where-Leads (some (t, ps)) o e r v zero b l = absurd (no_round "WHERE" (g 52) _ (h 52) l)
  where-Leads (some (t, ps)) o e r v (suc f) b l =
      let ts = with_clause g (some (t, ps)) o e in
      let xs = g 53 ++ (t ∷ ps) in
      let us = g 53 ++ (t ∷ (ps ++ ts)) in
      let cut : xs ++ ts ≡ us = simp append_assoc in
      (
        f,
        _,
        rest_fits "WHERE" f (g 52) us xs ts (h 52) cut l,
        round_where lib g h f t ps (g 52) r b ts (h 52) v.0 v.1 (with_clause-Stops (t, ps) o e)
            ∙ ap
                (λ r'.
                  options_loop lib f r'
                    (cursor (((b ++ g 52) ++ upper "WHERE" ∷ g 53) ++ t ∷ ps) ts))
                (set_predicate_lem r _
                  ∙ ap (λ text. with_filter text r) (predicate_at-text t ps o e v.1)),
      )

  -- The white space before the end.
  last_gap : Predicate → Settings → List Token
  last_gap p none = gap_behind g p 56
  last_gap p (some s) = g 56

  with-Leads :
      (p : Predicate) (o : Settings) (e : Option (List Token)) (r : TokenParsedIndex)
      → IsSettings o
      → Leads lib r (with_clause g p o e) (with_settings lib o r) (last_gap p o ++ ending e)
  unfolding with_clause last_gap
  with-Leads p none e r v f b l = (f, b, l, refl)
  with-Leads p (some (s, ss)) e r v zero b l =
      absurd (no_round "WITH" (gap_behind g p 54) _ (gap_behind-AllBlank p 54) l)
  with-Leads p (some (s, ss)) e r v (suc f) b l =
      let ts = g 56 ++ ending e in
      let xs = g 55 ++ (l_paren ∷ (g 39 ++ settings_tokens g s ss (r_paren ∷ []))) in
      let us = g 55 ++ (l_paren ∷ (g 39 ++ settings_tokens g s ss (r_paren ∷ ts))) in
      let ws = gap_behind g p 54 in
      let cut : xs ++ ts ≡ us = simp (append_assoc, settings_tokens-append lib g h) in
      (
        f,
        _,
        rest_fits "WITH" f ws us xs ts (gap_behind-AllBlank p 54) cut l,
        round_with lib g h f s ss ws r b ts (gap_behind-AllBlank p 54) v,
      )

  all_skipped : (ws : List Token) → AllBlank ws → skip_blank (ws ++ []) ≡ []
  all_skipped [] k = refl
  all_skipped (w ∷ ws) k = rw k.0 (all_skipped ws k.1)

  at_end_behind :
      (ws b : List Token) → AllBlank ws → is_at_end (skip_whitespace (cursor b (ws ++ []))) ≡ true
  at_end_behind ws b k =
      rw (skip_whitespace-cursor b (ws ++ []), all_skipped ws k) (is_at_end-cursor _ [])

  -- At the end the loop changes nothing.
  no_more :
      (ws : List Token) (e : Option (List Token)) (f : ℕ) (r : TokenParsedIndex) (b : List Token)
      → AllBlank ws
      → (options_loop lib f r (cursor b (ws ++ ending e))).0 ≡ r
  unfolding options_loop discriminant is_whitespace_token is_keyword
  no_more ws e zero r b k = refl
  no_more ws none (suc f) r b k = elim (Bool-cases (is_at_end (cursor b (ws ++ [])))) [
    | inl e ↦ rw e
    | inr e ↦ rw (e, at_end_behind ws b k)
  ]
  no_more ws (some us) (suc f) r b k = simp (storage_laws, k, is_at_end-cursor, not_nil lib)

  skip_twice :
      (b ts : List Token)
      → skip_whitespace (skip_whitespace (cursor b ts)) ≡ skip_whitespace (cursor b ts)
  skip_twice b ts = simp (skip_whitespace-cursor, skip_blank_again, no_blanks, append-nil)

  -- White space in front does not matter.
  skipped_first :
      (f : ℕ) (r : TokenParsedIndex) (b ts : List Token)
      → (options_loop lib f r (skip_whitespace (cursor b ts))).0
        ≡ (options_loop lib f r (cursor b ts)).0
  unfolding options_loop
  skipped_first zero r b ts = refl
  skipped_first (suc f) r b [] = simp (skip_whitespace-cursor, is_at_end-cursor)
  skipped_first (suc f) r b (t ∷ ts) =
      rw (skip_twice b (t ∷ ts), is_at_end-cursor b (t ∷ ts))
        (elim (Bool-cases (is_at_end (skip_whitespace (cursor b (t ∷ ts))))) [
          | inl e ↦ rw e
          | inr e ↦ rw e
        ])

  last_gap-AllBlank : (p : Predicate) (o : Settings) → AllBlank (last_gap p o)
  unfolding last_gap
  last_gap-AllBlank p none = gap_behind-AllBlank p 56
  last_gap-AllBlank p (some s) = h 56

  -- The clauses in any white space, read with the white space in front of them skipped or not.
  pub parse_index_options-tail :
      (i : Included) (p : Predicate) (o : Settings) (e : Option (List Token)) (r : TokenParsedIndex)
      (b : List Token)
      → IsPredicate p
      → IsSettings o
      → (parse_index_options lib r (skip_whitespace (cursor b (tail_tokens g i p o e)))).0
        ≡ with_tail lib i p o r
  unfolding parse_index_options
  parse_index_options-tail i p o e r b v w =
      let ts = tail_tokens g i p o e in
      let r' = with_included i r in
      let r'' = with_filter (predicate_text lib p) r' in
      let f = remaining (skip_whitespace (cursor b ts)) in
      let fits : length (skip_blank ts) ≤ f = omega (
        arith,
        ap remaining (skip_whitespace-cursor b ts),
        remaining-cursor (b ++ blanks ts) (skip_blank ts),
      ) in
      let to_with =
        both_lead lib r' r'' (with_settings lib o r'') _ _ _ (where-Leads p o e r' v)
          (with-Leads p o e r'' w) in
      let (f', b', e', q) =
        both_lead lib r r' (with_settings lib o r'') _ _ _ (include-Leads i p o e r) to_with f b
          fits in
      skipped_first f r b ts
      ∙ ap (λ x. x.0) q
      ∙ no_more (last_gap p o) e f' (with_settings lib o r'') b' (last_gap-AllBlank p o)
