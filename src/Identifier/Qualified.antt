-- ===== src/Identifier/Qualified.antt =====
-- Names of two parts: the rest of src/parser/identifier_utils.rs.
use mathlib.Core.List.{reverse, reverse-append, reverse-reverse}
use rust_sqlpackage.Prelude.{
  ℕ, ◌≡◌, refl, sym, ap, ◌∙◌, Bool, true, false, not, ◌&&◌, ◌||◌, Option, none, some, List, [], ◌∷◌,
  ◌++◌, append_assoc, ◌==◌, if◌then◌else◌, is_nil, drop_while, Text, codes, is_whitespace,
  trim_matches, trim,
}
use rust_sqlpackage.Identifier.{normalize_identifier, starts_with_char}
use rust_sqlpackage.Token.{Token, Word, word, period, Sqlparser}

-- `str::contains`, with a pattern that is a text
unfoldable pub begins_with : Text → Text → Bool
begins_with [] s = true
begins_with (p ∷ ps) [] = false
begins_with (p ∷ ps) (c ∷ s) = p == c && begins_with ps s

unfoldable pub contains : Text → Text → Bool
contains pattern [] = is_nil pattern
contains pattern (c ∷ s) = begins_with pattern (c ∷ s) || contains pattern s

unfoldable pub is_qualified_name : Text → Bool
unfolding trim_matches
is_qualified_name name =
    let trimmed = trim name in
    if contains (codes "].[") trimmed
    then true
    else if not (starts_with_char b'[' trimmed) && contains (codes ".") trimmed
    then true
    else starts_with_char b'[' trimmed && contains (codes "].") trimmed

unfoldable pub extract_word_value : Word → Text
extract_word_value w = w.value

-- The words among the tokens, and whether a dot is among them.
unfoldable pub word_values : List Token → List Text
word_values [] = []
word_values (word w ∷ ts) = w.value ∷ word_values ts
word_values (t ∷ ts) = word_values ts

unfoldable pub has_dot : List Token → Bool
has_dot [] = false
has_dot (period ∷ ts) = true
has_dot (t ∷ ts) = has_dot ts

-- The match on the words and the dot: all its other arms give `None`.
unfoldable pub first_two : List Text → Bool → Option (Text × Text)
first_two (first ∷ second ∷ more) true = some (first, second)
first_two _ _ = none

unfoldable pub split_qualified_name_tokenized : Sqlparser → Text → Option (Text × Text)
split_qualified_name_tokenized lib name = elim (lib.tokenize name) [
  | none ↦ none
  | some tokens ↦ first_two (word_values tokens) (has_dot tokens)
]

abbrev or_single : Text → Text → Option (Text × Text) → Text × Text
or_single trimmed default_schema none = (default_schema, normalize_identifier trimmed)
or_single trimmed default_schema (some parts) = parts

abbrev split_trimmed : Sqlparser → Text → Text → Text × Text
split_trimmed lib trimmed default_schema =
    or_single trimmed default_schema (split_qualified_name_tokenized lib trimmed)

unfoldable pub split_qualified_name : Sqlparser → Text → Text → Text × Text
split_qualified_name lib name default_schema = split_trimmed lib (trim name) default_schema

-- `format!("[{}].[{}]", schema, name)`
abbrev pub bracketed : Text × Text → Text
bracketed parts = codes "[" ++ (parts.0 ++ (codes "].[" ++ (parts.1 ++ codes "]")))

-- The source trims the name, and `split_qualified_name` trims it again.
unfoldable pub normalize_object_name : Sqlparser → Text → Text → Text
unfolding trim_matches
normalize_object_name lib name default_schema =
    bracketed (split_qualified_name lib (trim name) default_schema)

drop_while-first : (p : ℕ → Bool) (c : ℕ) (s : Text) → p c ≡ false → drop_while p (c ∷ s) ≡ c ∷ s
drop_while-first p c s h = rw h

-- A text that begins and ends with characters that stay is not trimmed.
trim_matches-kept :
    (p : ℕ → Bool) (c d : ℕ) (s : Text)
    → p c ≡ false
    → p d ≡ false
    → trim_matches p (c ∷ (s ++ d ∷ [])) ≡ c ∷ (s ++ d ∷ [])
unfolding trim_matches
trim_matches-kept p c d s hc hd =
    let whole = c ∷ (s ++ d ∷ []) in
    let turned : reverse whole ≡ d ∷ reverse (c ∷ s) = reverse-append (c ∷ s) (d ∷ []) in
    let kept : drop_while p (reverse whole) ≡ reverse whole =
      ap (drop_while p) turned ∙ drop_while-first p d (reverse (c ∷ s)) hd ∙ sym turned in
    ap (λ x. reverse (drop_while p (reverse x))) (drop_while-first p c (s ++ d ∷ []) hc)
    ∙ ap reverse kept
    ∙ reverse-reverse whole

trim-bracketed : (parts : Text × Text) → trim (bracketed parts) ≡ bracketed parts
unfolding trim_matches
trim-bracketed (s, n) =
    let shape : bracketed (s, n) ≡ b'[' ∷ ((s ++ (codes "].[" ++ n)) ++ b']' ∷ []) =
      simp append_assoc in
    ap trim shape
    ∙ trim_matches-kept is_whitespace b'[' b']' (s ++ (codes "].[" ++ n)) refl refl
    ∙ sym shape

-- A word in brackets, as the tokenizer reads it.
abbrev pub bracket_word : Text → Token
bracket_word s = word (record { value = s; quote_style = some b'['; keyword = "NoKeyword" })

-- What the tokenizer makes of a bracketed name of two parts.
abbrev pub IsRead : Sqlparser → Text × Text → Type 0
IsRead lib parts =
    lib.tokenize (bracketed parts)
    ≡ some (bracket_word parts.0 ∷ period ∷ bracket_word parts.1 ∷ [])

-- A bracketed name of two parts that the tokenizer reads so is split into these parts.
split_qualified_name-bracketed :
    (lib : Sqlparser) (parts : Text × Text) (d : Text)
    → IsRead lib parts
    → split_qualified_name lib (bracketed parts) d ≡ parts
unfolding split_qualified_name split_qualified_name_tokenized word_values has_dot first_two
split_qualified_name-bracketed lib parts d h =
    let read : split_qualified_name_tokenized lib (bracketed parts) ≡ some parts =
      rw (h, split_qualified_name_tokenized) in
    ap (λ x. split_trimmed lib x d) (trim-bracketed parts) ∙ ap (or_single (bracketed parts) d) read

-- Where the tokenizer reads the name in brackets as its two parts with a dot between them,
-- normalizing the normalized name again, with whatever default schema, changes nothing.
pub normalize_object_name-normalize_object_name :
    (lib : Sqlparser) (name d d' : Text)
    → IsRead lib (split_qualified_name lib (trim name) d)
    → normalize_object_name lib (normalize_object_name lib name d) d'
      ≡ normalize_object_name lib name d
unfolding normalize_object_name
normalize_object_name-normalize_object_name lib name d d' h =
    let parts = split_qualified_name lib (trim name) d in
    ap (λ x. bracketed (split_qualified_name lib x d')) (trim-bracketed parts)
    ∙ ap bracketed (split_qualified_name-bracketed lib parts d' h)
