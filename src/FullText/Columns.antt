-- ===== src/FullText/Columns.antt =====
-- The columns of a full-text index.
use rust_sqlpackage.Prelude.{
  ℕ, zero, suc, ◌+◌, ◌^◌, ◌%◌, ◌≤◌, ◌<◌, ◌≡◌, refl, ap, ◌∙◌, Bool, true, false, Option, none, some,
  List, [], ◌∷◌, ◌++◌, map, append-nil, append_assoc, arith, length, length-append, Text, parse_u64,
}
use rust_sqlpackage.Token.{
  Token, Word, word, number, l_paren, r_paren, comma, discriminant, is_whitespace_token,
}
use rust_sqlpackage.TokenParser.{is_keyword, is_word_ci, skip_whitespace, remaining}
use rust_sqlpackage.TokenParser.Literals.{parse_positive_integer, positive_of}
use rust_sqlpackage.TokenParser.Cursor.{
  cursor, AllBlank, remaining-cursor, read_token-cursor, read_at,
}
use rust_sqlpackage.TokenParser.Gaps.{later, later-AllBlank}
use rust_sqlpackage.Storage.Partition.{upper, storage_laws}
use rust_sqlpackage.Constraint.Columns.{behind-last, behind-more}
use rust_sqlpackage.FullText.{
  TokenParsedFullTextColumn, language, skip_type_column, column_options, columns_loop,
  parse_fulltext_column_list,
}

-- A column as written: its name, the number behind LANGUAGE, the name behind TYPE COLUMN, each if any,
-- and whether STATISTICAL_SEMANTICS follows.
pub record Column : Type 0 where
  pub name : Word
  pub number : Option (Text × Bool × ℕ)
  pub type : Option Word
  pub semantics : Bool

abbrev number_tokens : (ℕ → List Token) → Option (Text × Bool × ℕ) → List Token → List Token
number_tokens g none ts = ts
number_tokens g (some (n, l, v)) ts = upper "LANGUAGE" ∷ (g 24 ++ (Token.number n l ∷ (g 25 ++ ts)))

abbrev type_tokens : (ℕ → List Token) → Option Word → List Token → List Token
type_tokens g none ts = ts
type_tokens g (some w) ts =
    upper "TYPE" ∷ (g 26 ++ (upper "COLUMN" ∷ (g 27 ++ (word w ∷ (g 28 ++ ts)))))

abbrev semantics_tokens : (ℕ → List Token) → Bool → List Token → List Token
semantics_tokens g false ts = ts
semantics_tokens g true ts = upper "STATISTICAL_SEMANTICS" ∷ (g 29 ++ ts)

abbrev options_tokens :
    (ℕ → List Token) → Option (Text × Bool × ℕ) → Option Word → Bool → List Token → List Token
options_tokens g n t s ts = number_tokens g n (type_tokens g t (semantics_tokens g s ts))

-- The white space in front of each part is that of `g`.
unfoldable pub column_tokens : (ℕ → List Token) → Column → List Token → List Token
column_tokens g c ts = word c.name ∷ (g 20 ++ options_tokens g c.number c.type c.semantics ts)

unfoldable pub columns_tokens : (ℕ → List Token) → Column → List Column → List Token → List Token
columns_tokens g c [] ts = column_tokens g c ts
columns_tokens g c (d ∷ ds) ts =
    column_tokens g c (comma ∷ (g 22 ++ columns_tokens (later g) d ds ts))

-- The number is written as such.
abbrev IsNumber : Option (Text × Bool × ℕ) → Type 0
IsNumber none = Unit
IsNumber (some (n, l, v)) = parse_u64 n ≡ some v

abbrev pub AreColumns : Column → List Column → Type 0
AreColumns c [] = IsNumber c.number
AreColumns c (d ∷ ds) = IsNumber c.number × AreColumns d ds

-- The language is a number modulo 2^32.
abbrev language_of : Option (Text × Bool × ℕ) → Option ℕ
language_of none = none
language_of (some (n, l, v)) = some (v % 2 ^ 32)

abbrev pub column_of : Column → TokenParsedFullTextColumn
column_of c = record { name = c.name.value; language_id = language_of c.number }

abbrev separator : Bool → Token
separator true = comma
separator false = r_paren

pub parse_positive_integer-number :
    (n : Text) (l : Bool) (v : ℕ) (b ts : List Token)
    → parse_u64 n ≡ some v
    → parse_positive_integer (cursor b (number n l ∷ ts))
      ≡ (some v, cursor (b ++ number n l ∷ []) ts)
unfolding parse_positive_integer
parse_positive_integer-number n l v b ts e =
    read_token-cursor positive_of b (number n l ∷ ts) ∙ rw (e, read_at)

module _ (g : ℕ → List Token) (h : (i : ℕ) → AllBlank (g i)) where
  numbered-options :
      (name n : Text) (l : Bool) (v : ℕ) (t : Option Word) (s more : Bool) (b ts : List Token)
      → parse_u64 n ≡ some v
      → column_options name
          (cursor b (g 20 ++ options_tokens g (some (n, l, v)) t s (separator more ∷ ts)))
        ≡ (
          some (record { name = name; language_id = some (v % 2 ^ 32) }),
          cursor (b ++ (g 20 ++ options_tokens g (some (n, l, v)) t s [])) (separator more ∷ ts),
        )
  unfolding column_options language skip_type_column is_whitespace_token is_keyword is_word_ci
  numbered-options name n l v none false false b ts k =
      let read = λ (c us : List Token). parse_positive_integer-number n l v c us k in
      simp (storage_laws, h, append-nil, read)
  numbered-options name n l v none false true b ts k =
      let read = λ (c us : List Token). parse_positive_integer-number n l v c us k in
      simp (storage_laws, h, append-nil, read)
  numbered-options name n l v none true false b ts k =
      let read = λ (c us : List Token). parse_positive_integer-number n l v c us k in
      simp (storage_laws, h, append-nil, read)
  numbered-options name n l v none true true b ts k =
      let read = λ (c us : List Token). parse_positive_integer-number n l v c us k in
      simp (storage_laws, h, append-nil, read)
  numbered-options name n l v (some w) false false b ts k =
      let read = λ (c us : List Token). parse_positive_integer-number n l v c us k in
      simp (storage_laws, h, append-nil, read)
  numbered-options name n l v (some w) false true b ts k =
      let read = λ (c us : List Token). parse_positive_integer-number n l v c us k in
      simp (storage_laws, h, append-nil, read)
  numbered-options name n l v (some w) true false b ts k =
      let read = λ (c us : List Token). parse_positive_integer-number n l v c us k in
      simp (storage_laws, h, append-nil, read)
  numbered-options name n l v (some w) true true b ts k =
      let read = λ (c us : List Token). parse_positive_integer-number n l v c us k in
      simp (storage_laws, h, append-nil, read)

  column_options-options :
      (name : Text) (n : Option (Text × Bool × ℕ)) (t : Option Word) (s more : Bool)
      (b ts : List Token)
      → IsNumber n
      → column_options name (cursor b (g 20 ++ options_tokens g n t s (separator more ∷ ts))) ≡ (
        some (record { name = name; language_id = language_of n }),
        cursor (b ++ (g 20 ++ options_tokens g n t s [])) (separator more ∷ ts),
      )
  unfolding column_options language skip_type_column is_whitespace_token is_keyword is_word_ci
  column_options-options name none none false false b ts k = simp (storage_laws, h, append-nil)
  column_options-options name none none false true b ts k = simp (storage_laws, h, append-nil)
  column_options-options name none none true false b ts k = simp (storage_laws, h, append-nil)
  column_options-options name none none true true b ts k = simp (storage_laws, h, append-nil)
  column_options-options name none (some w) false false b ts k = simp (storage_laws, h, append-nil)
  column_options-options name none (some w) false true b ts k = simp (storage_laws, h, append-nil)
  column_options-options name none (some w) true false b ts k = simp (storage_laws, h, append-nil)
  column_options-options name none (some w) true true b ts k = simp (storage_laws, h, append-nil)
  column_options-options name (some (n, l, v)) t s more b ts k =
      numbered-options name n l v t s more b ts k

  columns_tokens_head :
      (d : Column) (ds : List Column) (ts : List Token)
      → (us : List Token) × (columns_tokens g d ds ts ≡ word d.name ∷ us)
  unfolding columns_tokens column_tokens
  columns_tokens_head d [] ts = (_, refl)
  columns_tokens_head d (e ∷ es) ts = (_, refl)

  semantics_tokens-append :
      (s : Bool) (us ts : List Token)
      → semantics_tokens g s us ++ ts ≡ semantics_tokens g s (us ++ ts)
  semantics_tokens-append false us ts = refl
  semantics_tokens-append true us ts = simp append_assoc

  type_tokens-append :
      (t : Option Word) (us ts : List Token) → type_tokens g t us ++ ts ≡ type_tokens g t (us ++ ts)
  type_tokens-append none us ts = refl
  type_tokens-append (some w) us ts = simp append_assoc

  options_tokens-append :
      (n : Option (Text × Bool × ℕ)) (t : Option Word) (s : Bool) (us ts : List Token)
      → options_tokens g n t s us ++ ts ≡ options_tokens g n t s (us ++ ts)
  options_tokens-append none t s us ts = simp (type_tokens-append, semantics_tokens-append)
  options_tokens-append (some n) t s us ts =
      simp (append_assoc, type_tokens-append, semantics_tokens-append)

  column_tokens-append :
      (c : Column) (us ts : List Token) → column_tokens g c us ++ ts ≡ column_tokens g c (us ++ ts)
  unfolding column_tokens
  column_tokens-append c us ts = simp (append_assoc, options_tokens-append)

  columns_loop-last :
      (f : ℕ) (cs : List TokenParsedFullTextColumn) (c : Column) (b ts : List Token)
      → IsNumber c.number
      → columns_loop (suc f) cs (cursor b (column_tokens g c (r_paren ∷ ts)))
        ≡ (cs ++ column_of c ∷ [], cursor (b ++ column_tokens g c []) (r_paren ∷ ts))
  unfolding columns_loop column_tokens is_whitespace_token discriminant
  columns_loop-last f cs c b ts k = simp (
    storage_laws,
    column_options-options c.name.value c.number c.type c.semantics false,
    k,
    behind-last g h,
  )

  columns_loop-comma :
      (f : ℕ) (cs : List TokenParsedFullTextColumn) (c : Column) (w : Word) (b us : List Token)
      → IsNumber c.number
      → columns_loop (suc f) cs (cursor b (column_tokens g c (comma ∷ (g 22 ++ (word w ∷ us)))))
        ≡ columns_loop f
            (cs ++ column_of c ∷ [])
            (cursor (b ++ (column_tokens g c [] ++ comma ∷ g 22)) (word w ∷ us))
  unfolding columns_loop column_tokens is_whitespace_token discriminant
  columns_loop-comma f cs c w b us k = simp (
    storage_laws,
    column_options-options c.name.value c.number c.type c.semantics true,
    k,
    behind-more g h,
  )

  length-column_tokens :
      (c : Column) (ts : List Token)
      → length (column_tokens g c ts) ≡ length (column_tokens g c []) + length ts
  length-column_tokens c ts = omega (
    arith,
    ap (λ (us : List Token). length us) (column_tokens-append c [] ts),
    length-append (column_tokens g c []) ts,
  )

pub columns_tokens-append :
    (g : ℕ → List Token) (h : (i : ℕ) → AllBlank (g i)) (c : Column) (ds : List Column)
    (us ts : List Token)
    → columns_tokens g c ds us ++ ts ≡ columns_tokens g c ds (us ++ ts)
unfolding columns_tokens
columns_tokens-append g h c [] us ts = column_tokens-append g h c us ts
columns_tokens-append g h c (d ∷ ds) us ts = simp (
  column_tokens-append g h,
  append_assoc,
  columns_tokens-append (later g) (later-AllBlank g h) d ds,
)

columns_loop-columns :
    (g : ℕ → List Token) (h : (i : ℕ) → AllBlank (g i)) (f : ℕ)
    (cs : List TokenParsedFullTextColumn) (c : Column) (ds : List Column) (b ts : List Token)
    → AreColumns c ds
    → length ds < f
    → columns_loop f cs (cursor b (columns_tokens g c ds (r_paren ∷ ts))) ≡ (
      cs ++ (column_of c ∷ map column_of ds),
      cursor (b ++ columns_tokens g c ds []) (r_paren ∷ ts),
    )
unfolding columns_tokens
columns_loop-columns g h zero cs c ds b ts k l = elim l [ ]
columns_loop-columns g h (suc f) cs c [] b ts k l = columns_loop-last g h f cs c b ts k
columns_loop-columns g h (suc f) cs c (d ∷ ds) b ts (k, ks) l =
    let us = columns_tokens (later g) d ds (r_paren ∷ ts) in
    let (vs, e) = columns_tokens_head (later g) (later-AllBlank g h) d ds (r_paren ∷ ts) in
    let first : columns_loop (suc f) cs (cursor b (column_tokens g c (comma ∷ (g 22 ++ us))))
        ≡ columns_loop f (cs ++ column_of c ∷ [])
            (cursor (b ++ (column_tokens g c [] ++ comma ∷ g 22)) us) =
      rw e (columns_loop-comma g h f cs c d.name b vs k) in
    first
    ∙ columns_loop-columns (later g) (later-AllBlank g h) f (cs ++ column_of c ∷ []) d ds _ ts ks
        (omega arith)
    ∙ simp (append_assoc, column_tokens-append g h)

length-columns_tokens :
    (g : ℕ → List Token) (h : (i : ℕ) → AllBlank (g i)) (c : Column) (ds : List Column)
    (ts : List Token)
    → length ts + length ds ≤ length (columns_tokens g c ds ts)
unfolding columns_tokens
length-columns_tokens g h c [] ts = omega (arith, length-column_tokens g h c ts)
length-columns_tokens g h c (d ∷ ds) ts =
    let us = columns_tokens (later g) d ds ts in
    omega (
      arith,
      length-column_tokens g h c (comma ∷ (g 22 ++ us)),
      length-append (g 22) us,
      length-columns_tokens (later g) (later-AllBlank g h) d ds ts,
    )

module _ (g : ℕ → List Token) (h : (i : ℕ) → AllBlank (g i)) where
  at_columns :
      (c : Column) (ds : List Column) (b ts : List Token)
      → skip_whitespace (cursor b (g 23 ++ columns_tokens g c ds ts))
        ≡ cursor (b ++ g 23) (columns_tokens g c ds ts)
  unfolding is_whitespace_token
  at_columns c ds b ts =
      let (us, e) = columns_tokens_head g h c ds ts in rw e (simp (storage_laws, h))

  columns_loop_enough :
      (c : Column) (ds : List Column) (b ts : List Token)
      → AreColumns c ds
      → columns_loop
          (remaining (cursor b (columns_tokens g c ds (r_paren ∷ ts))))
          []
          (cursor b (columns_tokens g c ds (r_paren ∷ ts)))
        ≡ (column_of c ∷ map column_of ds, cursor (b ++ columns_tokens g c ds []) (r_paren ∷ ts))
  columns_loop_enough c ds b ts k =
      let us = columns_tokens g c ds (r_paren ∷ ts) in
      columns_loop-columns g h (remaining (cursor b us)) [] c ds b ts k
        (omega (arith, remaining-cursor b us, length-columns_tokens g h c ds (r_paren ∷ ts)))

  -- Columns in parentheses, each with its options, are read in order.
  pub parse_fulltext_column_list-columns :
      (c : Column) (ds : List Column) (b ts : List Token)
      → AreColumns c ds
      → parse_fulltext_column_list
          (cursor b (l_paren ∷ (g 23 ++ columns_tokens g c ds (r_paren ∷ ts))))
        ≡ (
          some (column_of c ∷ map column_of ds),
          cursor (b ++ l_paren ∷ (g 23 ++ columns_tokens g c ds (r_paren ∷ []))) ts,
        )
  unfolding parse_fulltext_column_list discriminant is_whitespace_token
  parse_fulltext_column_list-columns c ds b ts k =
      simp (storage_laws, at_columns, columns_loop_enough, k, columns_tokens-append g h)
