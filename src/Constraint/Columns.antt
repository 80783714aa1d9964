-- ===== src/Constraint/Columns.antt =====
-- The lists of columns of a constraint.
use rust_sqlpackage.Prelude.{
  ℕ, zero, suc, ◌≤◌, ◌<◌, ◌≡◌, refl, ◌∙◌, Bool, true, false, some, List, [], ◌∷◌, ◌++◌, map,
  append-nil, append_assoc, arith, length, length-append,
}
use rust_sqlpackage.Token.{
  Token, Word, word, l_paren, r_paren, comma, discriminant, is_whitespace_token,
}
use rust_sqlpackage.TokenParser.{is_keyword, skip_whitespace, continue, remaining}
use rust_sqlpackage.TokenParser.Cursor.{
  cursor, AllBlank, remaining-cursor, is_at_end-cursor, check_token-cursor,
}
use rust_sqlpackage.TokenParser.Gaps.{later, later-AllBlank}
use rust_sqlpackage.Storage.Partition.{upper, storage_laws}
use rust_sqlpackage.Constraint.{
  TokenParsedConstraintColumn, constraint_column, sort_order, behind_column, columns_loop,
  at_list_end, parse_constraint_column_list,
}

-- The order of a column, as written.
pub data Order : Type 0 where
  asc desc unsaid : Order

abbrev pub order_tokens : Order → List Token → List Token → List Token
order_tokens asc g ts = upper "ASC" ∷ (g ++ ts)
order_tokens desc g ts = upper "DESC" ∷ (g ++ ts)
order_tokens unsaid g ts = ts

abbrev pub is_descending : Order → Bool
is_descending desc = true
is_descending _ = false

abbrev pub Ordered : Type 0
Ordered = Word × Order

abbrev pub column_of : Ordered → TokenParsedConstraintColumn
column_of c = record { name = c.0.value; descending = is_descending c.1 }

-- A token that ends a column: a comma, or the closing parenthesis.
abbrev pub separator : Bool → Token
separator true = comma
separator false = r_paren

-- A column with its order, then `ts`; the white space in front of each part is that of `g`.
unfoldable pub column_tokens : (ℕ → List Token) → Ordered → List Token → List Token
column_tokens g c ts = word c.0 ∷ (g 20 ++ order_tokens c.1 (g 21) ts)

unfoldable pub columns_tokens : (ℕ → List Token) → Ordered → List Ordered → List Token → List Token
columns_tokens g c [] ts = column_tokens g c ts
columns_tokens g c (d ∷ ds) ts =
    column_tokens g c (comma ∷ (g 22 ++ columns_tokens (later g) d ds ts))

module _ (g : ℕ → List Token) (h : (i : ℕ) → AllBlank (g i)) where
  column-tokens :
      (w : Word) (o : Order) (more : Bool) (b ts : List Token)
      → constraint_column (cursor b (column_tokens g (w, o) (separator more ∷ ts)))
        ≡ (some (column_of (w, o)), cursor (b ++ column_tokens g (w, o) []) (separator more ∷ ts))
  unfolding constraint_column sort_order column_tokens is_whitespace_token is_keyword
  column-tokens w asc true b ts = simp (storage_laws, h, append-nil)
  column-tokens w asc false b ts = simp (storage_laws, h, append-nil)
  column-tokens w desc true b ts = simp (storage_laws, h, append-nil)
  column-tokens w desc false b ts = simp (storage_laws, h, append-nil)
  column-tokens w unsaid true b ts = simp (storage_laws, h, append-nil)
  column-tokens w unsaid false b ts = simp (storage_laws, h, append-nil)

  pub not_at_end :
      (c : Ordered) (b ts : List Token) → at_list_end (cursor b (column_tokens g c ts)) ≡ false
  unfolding column_tokens discriminant
  not_at_end c b ts = rw (
    is_at_end-cursor b (column_tokens g c ts),
    check_token-cursor b (column_tokens g c ts) r_paren,
  )

  pub behind-last :
      (b ts : List Token)
      → behind_column (cursor b (r_paren ∷ ts)) ≡ (false, cursor b (r_paren ∷ ts))
  unfolding behind_column discriminant
  behind-last b ts = simp storage_laws

  pub behind-more :
      (w : Word) (b us : List Token)
      → behind_column (cursor b (comma ∷ (g 22 ++ (word w ∷ us))))
        ≡ (true, cursor (b ++ comma ∷ g 22) (word w ∷ us))
  unfolding behind_column discriminant is_whitespace_token
  behind-more w b us = simp (storage_laws, h)

  columns_loop-last :
      (f : ℕ) (cs : List TokenParsedConstraintColumn) (c : Ordered) (b ts : List Token)
      → columns_loop (suc f) cs (cursor b (column_tokens g c (r_paren ∷ ts)))
        ≡ (some (cs ++ column_of c ∷ []), cursor (b ++ column_tokens g c []) (r_paren ∷ ts))
  unfolding columns_loop continue
  columns_loop-last f cs (w, o) b ts =
      rw (not_at_end (w, o) b (r_paren ∷ ts))
        (rw (column-tokens w o false b ts) (rw (behind-last (b ++ column_tokens g (w, o) []) ts)))

  columns_loop-comma :
      (f : ℕ) (cs : List TokenParsedConstraintColumn) (c : Ordered) (w : Word) (b us : List Token)
      → columns_loop (suc f) cs (cursor b (column_tokens g c (comma ∷ (g 22 ++ (word w ∷ us)))))
        ≡ columns_loop f
            (cs ++ column_of c ∷ [])
            (cursor (b ++ (column_tokens g c [] ++ comma ∷ g 22)) (word w ∷ us))
  unfolding columns_loop continue
  columns_loop-comma f cs (w', o) w b us =
      rw (not_at_end (w', o) b (comma ∷ (g 22 ++ (word w ∷ us)))) (
        rw (column-tokens w' o true b (g 22 ++ (word w ∷ us)))
          (rw (behind-more w (b ++ column_tokens g (w', o) []) us) (simp append_assoc)))

  pub columns_tokens_head :
      (d : Ordered) (ds : List Ordered) (ts : List Token)
      → (us : List Token) × (columns_tokens g d ds ts ≡ word d.0 ∷ us)
  unfolding columns_tokens column_tokens
  columns_tokens_head d [] ts = (_, refl)
  columns_tokens_head d (e ∷ es) ts = (_, refl)

  pub column_tokens-append :
      (c : Ordered) (us ts : List Token) → column_tokens g c us ++ ts ≡ column_tokens g c (us ++ ts)
  unfolding column_tokens
  column_tokens-append (w, asc) us ts = simp append_assoc
  column_tokens-append (w, desc) us ts = simp append_assoc
  column_tokens-append (w, unsaid) us ts = simp append_assoc

  pub length-column_tokens :
      (c : Ordered) (ts : List Token) → length ts < length (column_tokens g c ts)
  unfolding column_tokens
  length-column_tokens (w, unsaid) ts = omega (arith, length-append (g 20) ts)
  length-column_tokens (w, asc) ts =
      omega (arith, length-append (g 20) (upper "ASC" ∷ (g 21 ++ ts)), length-append (g 21) ts)
  length-column_tokens (w, desc) ts =
      omega (arith, length-append (g 20) (upper "DESC" ∷ (g 21 ++ ts)), length-append (g 21) ts)

columns_loop-columns :
    (g : ℕ → List Token) (h : (i : ℕ) → AllBlank (g i)) (f : ℕ)
    (cs : List TokenParsedConstraintColumn) (c : Ordered) (ds : List Ordered) (b ts : List Token)
    → length (columns_tokens g c ds (r_paren ∷ ts)) ≤ f
    → columns_loop f cs (cursor b (columns_tokens g c ds (r_paren ∷ ts))) ≡ (
      some (cs ++ (column_of c ∷ map column_of ds)),
      cursor (b ++ columns_tokens g c ds []) (r_paren ∷ ts),
    )
unfolding columns_tokens
columns_loop-columns g h zero cs c [] b ts k =
    absurd (omega (arith, k, length-column_tokens g h c (r_paren ∷ ts)))
columns_loop-columns g h zero cs c (d ∷ ds) b ts k = absurd (
    omega (
      arith,
      k,
      length-column_tokens g h c (comma ∷ (g 22 ++ columns_tokens (later g) d ds (r_paren ∷ ts))),
    ))
columns_loop-columns g h (suc f) cs c [] b ts k = columns_loop-last g h f cs c b ts
columns_loop-columns g h (suc f) cs c (d ∷ ds) b ts k =
    let us = columns_tokens (later g) d ds (r_paren ∷ ts) in
    let (vs, e) = columns_tokens_head (later g) (later-AllBlank g h) d ds (r_paren ∷ ts) in
    let first : columns_loop (suc f) cs (cursor b (column_tokens g c (comma ∷ (g 22 ++ us))))
        ≡ columns_loop f (cs ++ column_of c ∷ [])
            (cursor (b ++ (column_tokens g c [] ++ comma ∷ g 22)) us) =
      rw e (columns_loop-comma g h f cs c d.0 b vs) in
    first
    ∙ columns_loop-columns (later g) (later-AllBlank g h) f (cs ++ column_of c ∷ []) d ds _ ts (
        omega
          (arith, k, length-column_tokens g h c (comma ∷ (g 22 ++ us)), length-append (g 22) us))
    ∙ simp (append_assoc, column_tokens-append g h)

pub columns_tokens-append :
    (g : ℕ → List Token) (h : (i : ℕ) → AllBlank (g i)) (c : Ordered) (ds : List Ordered)
    (us ts : List Token)
    → columns_tokens g c ds us ++ ts ≡ columns_tokens g c ds (us ++ ts)
unfolding columns_tokens
columns_tokens-append g h c [] us ts = column_tokens-append g h c us ts
columns_tokens-append g h c (d ∷ ds) us ts = simp (
  column_tokens-append g h,
  append_assoc,
  columns_tokens-append (later g) (later-AllBlank g h) d ds,
)

module _ (g : ℕ → List Token) (h : (i : ℕ) → AllBlank (g i)) where
  pub at_columns :
      (c : Ordered) (ds : List Ordered) (b ts : List Token)
      → skip_whitespace (cursor b (g 23 ++ columns_tokens g c ds ts))
        ≡ cursor (b ++ g 23) (columns_tokens g c ds ts)
  unfolding is_whitespace_token
  at_columns c ds b ts =
      let (us, e) = columns_tokens_head g h c ds ts in rw e (simp (storage_laws, h))

  columns_loop_enough :
      (c : Ordered) (ds : List Ordered) (b ts : List Token)
      → columns_loop
          (remaining (cursor b (columns_tokens g c ds (r_paren ∷ ts))))
          []
          (cursor b (columns_tokens g c ds (r_paren ∷ ts)))
        ≡ (
          some (column_of c ∷ map column_of ds),
          cursor (b ++ columns_tokens g c ds []) (r_paren ∷ ts),
        )
  columns_loop_enough c ds b ts =
      let us = columns_tokens g c ds (r_paren ∷ ts) in
      columns_loop-columns g h (remaining (cursor b us)) [] c ds b ts
        (omega (arith, remaining-cursor b us))

  -- Columns in parentheses, each with ASC, DESC or nothing behind it, with commas between them and any
  -- white space, are read in order, and the parser stops behind the closing parenthesis.
  pub parse_constraint_column_list-columns :
      (c : Ordered) (ds : List Ordered) (b ts : List Token)
      → parse_constraint_column_list
          (cursor b (l_paren ∷ (g 23 ++ columns_tokens g c ds (r_paren ∷ ts))))
        ≡ (
          some (column_of c ∷ map column_of ds),
          cursor (b ++ l_paren ∷ (g 23 ++ columns_tokens g c ds (r_paren ∷ []))) ts,
        )
  unfolding parse_constraint_column_list discriminant is_whitespace_token
  parse_constraint_column_list-columns c ds b ts =
      simp (storage_laws, at_columns, columns_loop_enough, columns_tokens-append g h)
