-- ===== src/Index/Columns.antt =====
-- The lists of columns of an index.
use rust_sqlpackage.Prelude.{
  ℕ, zero, suc, ◌≤◌, ◌≡◌, refl, ap, ◌∙◌, none, some, List, [], ◌∷◌, ◌++◌, map, append-nil,
  append_assoc, arith, if◌then◌else◌, length, length-append, Text,
}
use mathlib.Core.Path.{fun_ext}
use rust_sqlpackage.Token.{
  Token, Word, word, l_paren, r_paren, comma, discriminant, is_whitespace_token,
}
use rust_sqlpackage.TokenParser.{
  TokenParser, Parse, is_keyword, skip_whitespace, remaining, parse_identifier,
}
use rust_sqlpackage.TokenParser.Cursor.{cursor, AllBlank, remaining-cursor}
use rust_sqlpackage.TokenParser.Gaps.{later, later-AllBlank}
use rust_sqlpackage.Storage.Partition.{storage_laws}
use rust_sqlpackage.Constraint.Columns.{
  Order, asc, desc, unsaid, Ordered, is_descending, column_tokens, columns_tokens, not_at_end,
  behind-last, behind-more, columns_tokens_head, column_tokens-append, columns_tokens-append,
  length-column_tokens, at_columns,
}
use rust_sqlpackage.Constraint.Names.{names_tokens}
use rust_sqlpackage.Constraint.Names as Names
use rust_sqlpackage.Constraint.{behind_column, at_list_end}
use rust_sqlpackage.Constraint as Constraint
use rust_sqlpackage.Index.{
  ParsedIndexColumn, direction, columns_loop, parse_column_list, names_loop,
  parse_simple_column_list,
}

abbrev Loop : Type 0
Loop = List Text → TokenParser → List Text × TokenParser

-- One round of the readers of names, of this module and of the constraints.
round : Loop → Loop
round rest columns p =
    let q = skip_whitespace p in
    let next = λ (c : Text).
      (let s = behind_column (skip_whitespace (parse_identifier q).1) in
        let more = rest (columns ++ c ∷ []) s.1 in
        if s.0 then more else (columns ++ c ∷ [], s.1)) in
    if at_list_end p then (columns, p) else elim ((parse_identifier q).0) [
      | none ↦ (columns, (parse_identifier q).1)
      | some c ↦ next c
    ]

names_loop-same : (f : ℕ) → names_loop f ≡ Constraint.names_loop f
unfolding names_loop Constraint.names_loop round
names_loop-same zero = refl
names_loop-same (suc f) = ap round (names_loop-same f)

parse_simple_column_list-same : parse_simple_column_list ≡ Constraint.parse_simple_column_list
unfolding parse_simple_column_list Constraint.parse_simple_column_list
parse_simple_column_list-same = rw (fun_ext names_loop-same)

abbrev pub index_column_of : Ordered → ParsedIndexColumn
index_column_of c = record { name = c.0.value; is_descending = is_descending c.1 }

module _ (g : ℕ → List Token) (h : (i : ℕ) → AllBlank (g i)) where
  columns_loop-last :
      (f : ℕ) (cs : List ParsedIndexColumn) (w : Word) (o : Order) (b ts : List Token)
      → columns_loop (suc f) cs (cursor b (column_tokens g (w, o) (r_paren ∷ ts))) ≡ (
        cs ++ index_column_of (w, o) ∷ [],
        cursor (b ++ column_tokens g (w, o) []) (r_paren ∷ ts),
      )
  unfolding columns_loop direction column_tokens is_whitespace_token is_keyword
  columns_loop-last f cs w asc b ts =
      rw (not_at_end g h (w, asc) b (r_paren ∷ ts))
        (simp (storage_laws, h, behind-last g h, append-nil))
  columns_loop-last f cs w desc b ts =
      rw (not_at_end g h (w, desc) b (r_paren ∷ ts))
        (simp (storage_laws, h, behind-last g h, append-nil))
  columns_loop-last f cs w unsaid b ts =
      rw (not_at_end g h (w, unsaid) b (r_paren ∷ ts))
        (simp (storage_laws, h, behind-last g h, append-nil))

  columns_loop-comma :
      (f : ℕ) (cs : List ParsedIndexColumn) (c : Word) (o : Order) (w : Word) (b us : List Token)
      → columns_loop
          (suc f)
          cs
          (cursor b (column_tokens g (c, o) (comma ∷ (g 22 ++ (word w ∷ us)))))
        ≡ columns_loop f
            (cs ++ index_column_of (c, o) ∷ [])
            (cursor (b ++ (column_tokens g (c, o) [] ++ comma ∷ g 22)) (word w ∷ us))
  unfolding columns_loop direction column_tokens is_whitespace_token is_keyword
  columns_loop-comma f cs c asc w b us =
      rw (not_at_end g h (c, asc) b (comma ∷ (g 22 ++ (word w ∷ us))))
        (simp (storage_laws, h, behind-more g h, append-nil))
  columns_loop-comma f cs c desc w b us =
      rw (not_at_end g h (c, desc) b (comma ∷ (g 22 ++ (word w ∷ us))))
        (simp (storage_laws, h, behind-more g h, append-nil))
  columns_loop-comma f cs c unsaid w b us =
      rw (not_at_end g h (c, unsaid) b (comma ∷ (g 22 ++ (word w ∷ us))))
        (simp (storage_laws, h, behind-more g h, append-nil))

columns_loop-columns :
    (g : ℕ → List Token) (h : (i : ℕ) → AllBlank (g i)) (f : ℕ) (cs : List ParsedIndexColumn)
    (c : Ordered) (ds : List Ordered) (b ts : List Token)
    → length (columns_tokens g c ds (r_paren ∷ ts)) ≤ f
    → columns_loop f cs (cursor b (columns_tokens g c ds (r_paren ∷ ts))) ≡ (
      cs ++ (index_column_of c ∷ map index_column_of ds),
      cursor (b ++ columns_tokens g c ds []) (r_paren ∷ ts),
    )
unfolding columns_tokens
columns_loop-columns g h zero cs c [] b ts k =
    absurd (omega (arith, k, length-column_tokens g h c (r_paren ∷ ts)))
columns_loop-columns g h zero cs c (d ∷ ds) b ts k = absurd (
    omega (
      arith,
      k,
      length-column_tokens g h c (comma ∷ (g 22 ++ columns_tokens (later g) d ds (r_paren ∷ ts))),
    ))
columns_loop-columns g h (suc f) cs (c, o) [] b ts k = columns_loop-last g h f cs c o b ts
columns_loop-columns g h (suc f) cs (c, o) (d ∷ ds) b ts k =
    let us = columns_tokens (later g) d ds (r_paren ∷ ts) in
    let (vs, e) = columns_tokens_head (later g) (later-AllBlank g h) d ds (r_paren ∷ ts) in
    let first : columns_loop (suc f) cs (cursor b (column_tokens g (c, o) (comma ∷ (g 22 ++ us))))
        ≡ columns_loop f (cs ++ index_column_of (c, o) ∷ [])
            (cursor (b ++ (column_tokens g (c, o) [] ++ comma ∷ g 22)) us) =
      rw e (columns_loop-comma g h f cs c o d.0 b vs) in
    first
    ∙ columns_loop-columns (later g) (later-AllBlank g h) f (cs ++ index_column_of (c, o) ∷ []) d ds
        _ ts
        (omega (
          arith,
          k,
          length-column_tokens g h (c, o) (comma ∷ (g 22 ++ us)),
          length-append (g 22) us,
        ))
    ∙ simp (append_assoc, column_tokens-append g h)

module _ (g : ℕ → List Token) (h : (i : ℕ) → AllBlank (g i)) where
  columns_loop_enough :
      (c : Ordered) (ds : List Ordered) (b ts : List Token)
      → columns_loop
          (remaining (cursor b (columns_tokens g c ds (r_paren ∷ ts))))
          []
          (cursor b (columns_tokens g c ds (r_paren ∷ ts)))
        ≡ (
          index_column_of c ∷ map index_column_of ds,
          cursor (b ++ columns_tokens g c ds []) (r_paren ∷ ts),
        )
  columns_loop_enough c ds b ts =
      let us = columns_tokens g c ds (r_paren ∷ ts) in
      columns_loop-columns g h (remaining (cursor b us)) [] c ds b ts
        (omega (arith, remaining-cursor b us))

  -- Columns in parentheses, each with ASC, DESC or nothing behind it, are read in order.
  pub parse_column_list-columns :
      (c : Ordered) (ds : List Ordered) (b ts : List Token)
      → parse_column_list (cursor b (l_paren ∷ (g 23 ++ columns_tokens g c ds (r_paren ∷ ts)))) ≡ (
        some (index_column_of c ∷ map index_column_of ds),
        cursor (b ++ l_paren ∷ (g 23 ++ columns_tokens g c ds (r_paren ∷ []))) ts,
      )
  unfolding parse_column_list discriminant is_whitespace_token
  parse_column_list-columns c ds b ts =
      simp (storage_laws, at_columns g h, columns_loop_enough, columns_tokens-append g h)

  pub parse_simple_column_list-names :
      (c : Word) (ds : List Word) (b ts : List Token)
      → parse_simple_column_list (cursor b (l_paren ∷ (g 23 ++ names_tokens g c ds (r_paren ∷ ts))))
        ≡ (
          some (c.value ∷ map (λ (d : Word). d.value) ds),
          cursor (b ++ l_paren ∷ (g 23 ++ names_tokens g c ds (r_paren ∷ []))) ts,
        )
  parse_simple_column_list-names c ds b ts =
      ap
        (λ (m : Parse (List Text)).
          m (cursor b (l_paren ∷ (g 23 ++ names_tokens g c ds (r_paren ∷ ts)))))
        parse_simple_column_list-same
      ∙ Names.parse_simple_column_list-names g h c ds b ts
