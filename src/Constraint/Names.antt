-- ===== src/Constraint/Names.antt =====
-- The lists of names in a FOREIGN KEY constraint.
use rust_sqlpackage.Prelude.{
  ℕ, zero, suc, ◌≤◌, ◌≡◌, refl, ◌∙◌, false, some, List, [], ◌∷◌, ◌++◌, map, append-nil,
  append_assoc, arith, length, length-append, Text,
}
use rust_sqlpackage.Token.{
  Token, Word, word, l_paren, r_paren, comma, discriminant, is_whitespace_token,
}
use rust_sqlpackage.TokenParser.{skip_whitespace, remaining}
use rust_sqlpackage.TokenParser.Cursor.{
  cursor, AllBlank, remaining-cursor, is_at_end-cursor, check_token-cursor,
}
use rust_sqlpackage.TokenParser.Gaps.{later, later-AllBlank}
use rust_sqlpackage.Storage.Partition.{storage_laws}
use rust_sqlpackage.Constraint.{names_loop, at_list_end, parse_simple_column_list}
use rust_sqlpackage.Constraint.Columns.{behind-last, behind-more}

-- A name, then `ts`; the white space in front of each part is that of `g`.
unfoldable pub name_tokens : (ℕ → List Token) → Word → List Token → List Token
name_tokens g c ts = word c ∷ (g 20 ++ ts)

unfoldable pub names_tokens : (ℕ → List Token) → Word → List Word → List Token → List Token
names_tokens g c [] ts = name_tokens g c ts
names_tokens g c (d ∷ ds) ts = name_tokens g c (comma ∷ (g 22 ++ names_tokens (later g) d ds ts))

module _ (g : ℕ → List Token) (h : (i : ℕ) → AllBlank (g i)) where
  names_tokens_head :
      (d : Word) (ds : List Word) (ts : List Token)
      → (us : List Token) × (names_tokens g d ds ts ≡ word d ∷ us)
  unfolding names_tokens name_tokens
  names_tokens_head d [] ts = (_, refl)
  names_tokens_head d (e ∷ es) ts = (_, refl)

  name_at_end : (c : Word) (b ts : List Token) → at_list_end (cursor b (word c ∷ ts)) ≡ false
  unfolding discriminant
  name_at_end c b ts =
      rw (is_at_end-cursor b (word c ∷ ts), check_token-cursor b (word c ∷ ts) r_paren)

  names_loop-last :
      (f : ℕ) (cs : List Text) (c : Word) (b ts : List Token)
      → names_loop (suc f) cs (cursor b (name_tokens g c (r_paren ∷ ts)))
        ≡ (cs ++ c.value ∷ [], cursor (b ++ name_tokens g c []) (r_paren ∷ ts))
  unfolding names_loop name_tokens is_whitespace_token
  names_loop-last f cs c b ts =
      rw (name_at_end c b (g 20 ++ (r_paren ∷ ts)))
        (simp (storage_laws, h, behind-last g h, append-nil))

  names_loop-comma :
      (f : ℕ) (cs : List Text) (c w : Word) (b us : List Token)
      → names_loop (suc f) cs (cursor b (name_tokens g c (comma ∷ (g 22 ++ (word w ∷ us)))))
        ≡ names_loop f
            (cs ++ c.value ∷ [])
            (cursor (b ++ (name_tokens g c [] ++ comma ∷ g 22)) (word w ∷ us))
  unfolding names_loop name_tokens is_whitespace_token
  names_loop-comma f cs c w b us =
      rw (name_at_end c b (g 20 ++ (comma ∷ (g 22 ++ (word w ∷ us)))))
        (simp (storage_laws, h, behind-more g h, append-nil))

names_loop-names :
    (g : ℕ → List Token) (h : (i : ℕ) → AllBlank (g i)) (f : ℕ) (cs : List Text) (c : Word)
    (ds : List Word) (b ts : List Token)
    → length (names_tokens g c ds (r_paren ∷ ts)) ≤ f
    → names_loop f cs (cursor b (names_tokens g c ds (r_paren ∷ ts))) ≡ (
      cs ++ (c.value ∷ map (λ (d : Word). d.value) ds),
      cursor (b ++ names_tokens g c ds []) (r_paren ∷ ts),
    )
unfolding names_tokens name_tokens
names_loop-names g h zero cs c [] b ts k = absurd (omega (arith, k))
names_loop-names g h zero cs c (d ∷ ds) b ts k = absurd (omega (arith, k))
names_loop-names g h (suc f) cs c [] b ts k = names_loop-last g h f cs c b ts
names_loop-names g h (suc f) cs c (d ∷ ds) b ts k =
    let us = names_tokens (later g) d ds (r_paren ∷ ts) in
    let (vs, e) = names_tokens_head (later g) (later-AllBlank g h) d ds (r_paren ∷ ts) in
    let first : names_loop (suc f) cs (cursor b (name_tokens g c (comma ∷ (g 22 ++ us))))
        ≡ names_loop f (cs ++ c.value ∷ [])
            (cursor (b ++ (name_tokens g c [] ++ comma ∷ g 22)) us) =
      rw e (names_loop-comma g h f cs c d b vs) in
    first
    ∙ names_loop-names (later g) (later-AllBlank g h) f (cs ++ c.value ∷ []) d ds _ ts
        (omega (arith, k, length-append (g 20) (comma ∷ (g 22 ++ us)), length-append (g 22) us))
    ∙ simp append_assoc

pub names_tokens-append :
    (g : ℕ → List Token) (h : (i : ℕ) → AllBlank (g i)) (c : Word) (ds : List Word)
    (us ts : List Token)
    → names_tokens g c ds us ++ ts ≡ names_tokens g c ds (us ++ ts)
unfolding names_tokens name_tokens
names_tokens-append g h c [] us ts = simp append_assoc
names_tokens-append g h c (d ∷ ds) us ts =
    simp (append_assoc, names_tokens-append (later g) (later-AllBlank g h) d ds)

module _ (g : ℕ → List Token) (h : (i : ℕ) → AllBlank (g i)) where
  at_names :
      (c : Word) (ds : List Word) (b ts : List Token)
      → skip_whitespace (cursor b (g 23 ++ names_tokens g c ds ts))
        ≡ cursor (b ++ g 23) (names_tokens g c ds ts)
  unfolding is_whitespace_token
  at_names c ds b ts = let (us, e) = names_tokens_head g h c ds ts in rw e (simp (storage_laws, h))

  names_loop_enough :
      (c : Word) (ds : List Word) (b ts : List Token)
      → names_loop
          (remaining (cursor b (names_tokens g c ds (r_paren ∷ ts))))
          []
          (cursor b (names_tokens g c ds (r_paren ∷ ts)))
        ≡ (
          c.value ∷ map (λ (d : Word). d.value) ds,
          cursor (b ++ names_tokens g c ds []) (r_paren ∷ ts),
        )
  names_loop_enough c ds b ts =
      let us = names_tokens g c ds (r_paren ∷ ts) in
      names_loop-names g h (remaining (cursor b us)) [] c ds b ts
        (omega (arith, remaining-cursor b us))

  -- Names in parentheses with commas between them are read in order.
  pub parse_simple_column_list-names :
      (c : Word) (ds : List Word) (b ts : List Token)
      → parse_simple_column_list (cursor b (l_paren ∷ (g 23 ++ names_tokens g c ds (r_paren ∷ ts))))
        ≡ (
          some (c.value ∷ map (λ (d : Word). d.value) ds),
          cursor (b ++ l_paren ∷ (g 23 ++ names_tokens g c ds (r_paren ∷ []))) ts,
        )
  unfolding parse_simple_column_list discriminant is_whitespace_token
  parse_simple_column_list-names c ds b ts =
      simp (storage_laws, at_names, names_loop_enough, names_tokens-append g h)
