-- ===== src/Xml/Escape.antt =====
-- Reading an escaped attribute value again, as XML 1.0 (sections 3.3.3 and 4.6) says.
use rust_sqlpackage.Prelude.{
  ℕ, zero, suc, ◌≤◌, ◌≡◌, refl, ap, ◌∙◌, ◌⊎◌, inl, inr, true, false, ◌||◌, Option, none, some, List,
  [], ◌∷◌, ◌++◌, map, append_assoc, arith, ◌==◌, if◌then◌else◌, length, Text, codes,
}
use rust_sqlpackage.Xml.{replace, escape_newlines_for_attr}

-- The references that a value can hold here: those of the markup characters, and LF and CR.
abbrev pub reference_table : List (Text × ℕ)
reference_table =
    (codes "amp;", b'&')
    ∷ (codes "lt;", b'<')
    ∷ (codes "gt;", b'>')
    ∷ (codes "quot;", b'"')
    ∷ (codes "#xA;", 10)
    ∷ (codes "#xD;", 13)
    ∷ []

-- `s` behind a prefix
unfoldable pub strip_prefix : Text → Text → Option Text
strip_prefix [] s = some s
strip_prefix (p ∷ ps) [] = none
strip_prefix (p ∷ ps) (c ∷ s) = if p == c then strip_prefix ps s else none

unfoldable pub read_reference : List (Text × ℕ) → Text → Option (ℕ × Text)
read_reference [] s = none
read_reference ((name, c) ∷ more) s = elim (strip_prefix name s) [
  | none ↦ read_reference more s
  | some rest ↦ some (c, rest)
]

abbrev pub put : ℕ → Option Text → Option Text
put c none = none
put c (some s) = some (c ∷ s)

-- White space that stands in a value as it is reads as a space.
abbrev pub read_plain : ℕ → ℕ
read_plain c = if c == 9 || c == 10 || c == 13 then 32 else c

-- The value that a reader finds; none where markup is not escaped. The first number is fuel.
unfoldable pub read_value : ℕ → Text → Option Text
read_value zero [] = some []
read_value zero (c ∷ s) = none
read_value (suc n) [] = some []
read_value (suc n) (c ∷ s) =
    if c == b'&'
    then elim (read_reference reference_table s) [
      | none ↦ none
      | some r ↦ put r.0 (read_value n r.1)
    ]
    else elim (c == b'<' || c == b'"') [ true ↦ none | false ↦ put (read_plain c) (read_value n s) ]

-- A tab reads as a space.
abbrev pub tab_as_space : ℕ → ℕ
tab_as_space c = if c == 9 then 32 else c

-- The escapes all at once, character by character.
unfoldable pub escape_char : ℕ → Text
escape_char c =
    if c == b'&'
    then codes "&amp;"
    else if c == b'<'
    then codes "&lt;"
    else if c == b'>'
    then codes "&gt;"
    else if c == b'"'
    then codes "&quot;"
    else if c == 10
    then codes "&#xA;"
    else if c == 13
    then codes "&#xD;"
    else c ∷ []

unfoldable pub escape_all : Text → Text
escape_all [] = []
escape_all (c ∷ s) = escape_char c ++ escape_all s

replace-append :
    (c : ℕ) (by xs ys : Text) → replace c by (xs ++ ys) ≡ replace c by xs ++ replace c by ys
unfolding replace
replace-append c by [] ys = refl
replace-append c by (x ∷ xs) ys =
    rw
      (
        replace-append c by xs ys,
        append_assoc (if x == c then by else x ∷ []) (replace c by xs) (replace c by ys),
      )
      refl

escape-append :
    (xs ys : Text)
    → escape_newlines_for_attr (xs ++ ys)
      ≡ escape_newlines_for_attr xs ++ escape_newlines_for_attr ys
unfolding escape_newlines_for_attr
escape-append xs ys = simp replace-append

-- The characters that are escaped, and the others.
data Special : ℕ → Type 0 where
  is_amp : Special b'&'
  is_lt : Special b'<'
  is_gt : Special b'>'
  is_quot : Special b'"'
  is_lf : Special 10
  is_cr : Special 13
  is_plain :
      (c : ℕ)
      → (c == b'&') ≡ false
      → (c == b'<') ≡ false
      → (c == b'>') ≡ false
      → (c == b'"') ≡ false
      → (c == 10) ≡ false
      → (c == 13) ≡ false
      → Special c

try_char :
    (c d : ℕ)
    → Special d
    → (c ≡ d) ⊎ ((c == d) ≡ false)
    → ((c == d) ≡ false → Special c)
    → Special c
try_char c d s (inl e) f = rw e s
try_char c d s (inr h) f = f h

pub decide_same : (c d : ℕ) → (c ≡ d) ⊎ ((c == d) ≡ false)
decide_same c d = ground arith

special : (c : ℕ) → Special c
special c = try_char c b'&' is_amp (decide_same c b'&') λ h1.
    try_char c b'<' is_lt (decide_same c b'<') λ h2.
      try_char c b'>' is_gt (decide_same c b'>') λ h3.
        try_char c b'"' is_quot (decide_same c b'"') λ h4.
          try_char c 10 is_lf (decide_same c 10)
            λ h5. try_char c 13 is_cr (decide_same c 13) λ h6. is_plain c h1 h2 h3 h4 h5 h6

escape-Special : {c : ℕ} → Special c → escape_newlines_for_attr (c ∷ []) ≡ escape_char c
unfolding escape_newlines_for_attr escape_char replace
escape-Special is_amp = refl
escape-Special is_lt = refl
escape-Special is_gt = refl
escape-Special is_quot = refl
escape-Special is_lf = refl
escape-Special is_cr = refl
escape-Special (is_plain d h1 h2 h3 h4 h5 h6) = simp (h1, h2, h3, h4, h5, h6)

-- The replacements one after the other escape every character once, as one pass by characters does.
pub escape_newlines_for_attr-escape_all : (s : Text) → escape_newlines_for_attr s ≡ escape_all s
unfolding escape_all escape_newlines_for_attr replace
escape_newlines_for_attr-escape_all [] = refl
escape_newlines_for_attr-escape_all (c ∷ s) =
    escape-append (c ∷ []) s
    ∙ simp (escape-Special (special c), escape_newlines_for_attr-escape_all s)

plain_char : (d : ℕ) → (d == 10) ≡ false → (d == 13) ≡ false → read_plain d ≡ tab_as_space d
plain_char d h k = ground (arith, h, k)

read_value-plain :
    (n d : ℕ) (s : Text)
    → (d == b'&') ≡ false
    → (d == b'<') ≡ false
    → (d == b'"') ≡ false
    → read_value (suc n) (d ∷ s) ≡ put (read_plain d) (read_value n s)
unfolding read_value
read_value-plain n d s h k l = rw (h, k, l)

-- One character of fuel reads one escaped character.
read-Special :
    {c : ℕ} (n : ℕ) (s : Text)
    → Special c
    → read_value (suc n) (escape_char c ++ s) ≡ put (tab_as_space c) (read_value n s)
unfolding read_value escape_char read_reference strip_prefix
read-Special n s is_amp = refl
read-Special n s is_lt = refl
read-Special n s is_gt = refl
read-Special n s is_quot = refl
read-Special n s is_lf = refl
read-Special n s is_cr = refl
read-Special n s (is_plain d h1 h2 h3 h4 h5 h6) =
    rw (h1, h2, h3, h4, h5, h6)
      (read_value-plain n d s h1 h2 h4 ∙ ap (λ x. put x (read_value n s)) (plain_char d h5 h6))

read_value-escape_all :
    (n : ℕ) (s : Text) → length s ≤ n → read_value n (escape_all s) ≡ some (map tab_as_space s)
unfolding escape_all read_value
read_value-escape_all zero [] h = refl
read_value-escape_all (suc n) [] h = refl
read_value-escape_all zero (c ∷ s) h = elim h [ ]
read_value-escape_all (suc n) (c ∷ s) h =
    read-Special n (escape_all s) (special c) ∙ simp (read_value-escape_all n s (omega arith))

-- An escaped value reads back as the text, but for tabs: a reader finds a space in place of each. Fuel
-- for each character is enough.
pub read_value-escape_newlines_for_attr :
    (n : ℕ) (s : Text)
    → length s ≤ n
    → read_value n (escape_newlines_for_attr s) ≡ some (map tab_as_space s)
read_value-escape_newlines_for_attr n s h =
    rw (escape_newlines_for_attr-escape_all s) (read_value-escape_all n s h)
