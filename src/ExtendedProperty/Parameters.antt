-- ===== src/ExtendedProperty/Parameters.antt =====
-- The parameters of a call, each with its name and value.
use rust_sqlpackage.Prelude.{
  ℕ, zero, suc, ◌≤◌, ◌<◌, ◌≡◌, refl, ◌∙◌, inl, inr, false, Option, none, some, List, [], ◌∷◌, ◌++◌,
  append-nil, append_assoc, arith, Bool-cases, length, is_nil, length-append, Text, codes,
  eq_ignore_ascii_case,
}
use rust_sqlpackage.Token.{
  Token, Word, word, comma, eq, semi_colon, single_quoted_string, national_string_literal,
  Sqlparser, discriminant, is_whitespace_token,
}
use rust_sqlpackage.TokenParser.{is_keyword, check_token, skip_whitespace}
use rust_sqlpackage.TokenParser.Cursor.{
  cursor, AllBlank, skip_whitespace-blanks, current_token-cursor, cursor_laws, is_at_end-cursor,
}
use rust_sqlpackage.Preprocess.Replace.{attempt_laws}
use rust_sqlpackage.Sequence.Run.{is_nil-append}
use rust_sqlpackage.TokenParser.Gaps.{later, later-AllBlank}
use rust_sqlpackage.Columns.Maps.{text_eq}
use rust_sqlpackage.Storage.Partition.{upper, skip_whitespace-solid}
use rust_sqlpackage.ExtendedProperty.{
  TokenParsedExtendedProperty, param_name_of, take_name, try_parse_param_name, value_at, value_from,
  parse_parameter_value, store, assigned, named_parameter, parameters_loop,
}

-- A value as written: a string of either kind, a word other than NULL, or NULL.
pub data Value : Type 0 where
  as_string as_national : Text → Value
  as_word : Word → Value
  null : Value

abbrev pub value_token : Value → Token
value_token (as_string s) = single_quoted_string s
value_token (as_national s) = national_string_literal s
value_token (as_word w) = word w
value_token null = upper "NULL"

abbrev pub value_text : Value → Option Text
value_text (as_string s) = some s
value_text (as_national s) = some s
value_text (as_word w) = some w.value
value_text null = none

abbrev pub IsValue : Value → Type 0
IsValue (as_word w) =
    (is_keyword "NULL" (word w) ≡ false) × (eq_ignore_ascii_case w.value (codes "NULL") ≡ false)
IsValue _ = Unit

-- What a parameter names.
pub data Name : Type 0 where
  property_name property_value : Name
  level0name level0type level1type level1name level2type level2name : Name
  unknown : Text → Name

abbrev pub name_text : Name → Text
name_text property_name = codes "NAME"
name_text property_value = codes "VALUE"
name_text level0name = codes "LEVEL0NAME"
name_text level0type = codes "LEVEL0TYPE"
name_text level1type = codes "LEVEL1TYPE"
name_text level1name = codes "LEVEL1NAME"
name_text level2type = codes "LEVEL2TYPE"
name_text level2name = codes "LEVEL2NAME"
name_text (unknown t) = t

-- None of the names that are stored.
abbrev IsUnknown : Text → Type 0
IsUnknown t =
    (text_eq t (codes "NAME") ≡ false)
    × (text_eq t (codes "VALUE") ≡ false)
    × (text_eq t (codes "LEVEL0NAME") ≡ false)
    × (text_eq t (codes "LEVEL1TYPE") ≡ false)
    × (text_eq t (codes "LEVEL1NAME") ≡ false)
    × (text_eq t (codes "LEVEL2TYPE") ≡ false)
    × (text_eq t (codes "LEVEL2NAME") ≡ false)

abbrev IsName : Name → Type 0
IsName (unknown t) = IsUnknown t
IsName _ = Unit

-- A comma, or a parameter's word, what it names, and its value.
pub data Item : Type 0 where
  a_comma : Item
  parameter : Word → Name → Value → Item

abbrev pub IsItem : Sqlparser → Item → Type 0
IsItem lib a_comma = Unit
IsItem lib (parameter w n v) =
    (param_name_of lib (word w) ≡ some (name_text n)) × IsValue v × IsName n

abbrev pub AreItems : Sqlparser → List Item → Type 0
AreItems lib [] = Unit
AreItems lib (i ∷ is) = IsItem lib i × AreItems lib is

-- The white space in front of each part is that of `g`.
unfoldable pub item_tokens : (ℕ → List Token) → Item → List Token → List Token
item_tokens g a_comma ts = comma ∷ ts
item_tokens g (parameter w n v) ts = word w ∷ (g 1 ++ (eq ∷ (g 2 ++ (value_token v ∷ ts))))

unfoldable pub items_tokens : (ℕ → List Token) → List Item → List Token → List Token
items_tokens g [] ts = ts
items_tokens g (i ∷ is) ts = g 0 ++ item_tokens g i (items_tokens (later g) is ts)

-- What stands behind the parameters: nothing, or white space, a semicolon and any tokens.
abbrev pub ending : List Token → Option (List Token) → List Token
ending ws none = []
ending ws (some rest) = ws ++ (semi_colon ∷ rest)

abbrev pub at_ending : Option (List Token) → List Token
at_ending none = []
at_ending (some rest) = semi_colon ∷ rest

abbrev pub gap_before : List Token → Option (List Token) → List Token
gap_before ws none = []
gap_before ws (some rest) = ws

abbrev text_of : Value → Text
text_of null = []
text_of (as_string s) = s
text_of (as_national s) = s
text_of (as_word w) = w.value

-- NULL leaves the name of level 0 as it was.
abbrev level0 : Value → TokenParsedExtendedProperty → TokenParsedExtendedProperty
level0 null r = r
level0 v r = record r { level0name = text_of v }

-- What a parameter says of the property.
unfoldable pub say : Name → Value → TokenParsedExtendedProperty → TokenParsedExtendedProperty
say property_name v r = record r { property_name = text_of v }
say property_value v r = record r { property_value = text_of v }
say level0name v r = level0 v r
say level1type v r = record r { level1type = value_text v }
say level1name v r = record r { level1name = value_text v }
say level2type v r = record r { level2type = value_text v }
say level2name v r = record r { level2name = value_text v }
say _ v r = r

abbrev pub store_item : Item → TokenParsedExtendedProperty → TokenParsedExtendedProperty
store_item a_comma r = r
store_item (parameter w n v) r = say n v r

unfoldable pub store_all : List Item → TokenParsedExtendedProperty → TokenParsedExtendedProperty
store_all [] r = r
store_all (i ∷ is) r = store_all is (store_item i r)

store-say :
    (n : Name) (v : Value) (r : TokenParsedExtendedProperty)
    → IsName n
    → store (name_text n) (value_text v) r ≡ say n v r
unfolding store say text_eq
store-say property_name null r k = refl
store-say property_name (as_string s) r k = refl
store-say property_name (as_national s) r k = refl
store-say property_name (as_word w) r k = refl
store-say property_value null r k = refl
store-say property_value (as_string s) r k = refl
store-say property_value (as_national s) r k = refl
store-say property_value (as_word w) r k = refl
store-say level0name null r k = refl
store-say level0name (as_string s) r k = refl
store-say level0name (as_national s) r k = refl
store-say level0name (as_word w) r k = refl
store-say (unknown t) v r (k₀, k₁, k₂, k₃, k₄, k₅, k₆) =
    elim (Bool-cases (text_eq t (codes "LEVEL0TYPE"))) [
      | inl e ↦ rw (k₀, k₁, k₂, e)
      | inr e ↦ rw (k₀, k₁, k₂, e, k₃, k₄, k₅, k₆)
    ]
store-say _ v r k = refl

value_from-value :
    (v : Value) (b ts : List Token)
    → IsValue v
    → value_from (cursor b (value_token v ∷ ts))
      ≡ (value_text v, cursor (b ++ value_token v ∷ []) ts)
unfolding value_from value_at is_keyword
value_from-value (as_string s) b ts h =
    rw (current_token-cursor b (single_quoted_string s ∷ ts), value_from) (simp cursor_laws)
value_from-value (as_national s) b ts h =
    rw (current_token-cursor b (national_string_literal s ∷ ts), value_from) (simp cursor_laws)
value_from-value (as_word w) b ts (h, k) =
    rw (current_token-cursor b (word w ∷ ts), value_from) (simp (cursor_laws, h, k))
value_from-value null b ts h = simp cursor_laws

value_solid : (v : Value) → is_whitespace_token (value_token v) ≡ false
unfolding is_whitespace_token
value_solid (as_string s) = refl
value_solid (as_national s) = refl
value_solid (as_word w) = refl
value_solid null = refl

skip_whitespace-value :
    (v : Value) (b ts : List Token)
    → skip_whitespace (cursor b (value_token v ∷ ts)) ≡ cursor b (value_token v ∷ ts)
skip_whitespace-value v b ts = skip_whitespace-solid (value_token v) b ts (value_solid v)

try_parse-at :
    (lib : Sqlparser) (t : Token) (b ts : List Token)
    → try_parse_param_name lib (cursor b (t ∷ ts))
      ≡ take_name (param_name_of lib t) (cursor b (t ∷ ts))
unfolding try_parse_param_name
try_parse-at lib t b ts = rw (current_token-cursor b (t ∷ ts), try_parse_param_name) refl

parse_parameter_value-value :
    (v : Value) (b ws ts : List Token)
    → AllBlank ws
    → IsValue v
    → parse_parameter_value (skip_whitespace (cursor b (ws ++ (value_token v ∷ ts))))
      ≡ (value_text v, cursor (b ++ (ws ++ value_token v ∷ [])) ts)
unfolding parse_parameter_value
parse_parameter_value-value v b ws ts h k =
    rw (skip_whitespace-blanks (value_token v) ts (value_solid v) b ws h) (
      rw (skip_whitespace-value v (b ++ ws) ts)
        (rw (value_from-value v (b ++ ws) ts k) (simp append_assoc)))

module _ (g : ℕ → List Token) (h : (i : ℕ) → AllBlank (g i)) (lib : Sqlparser) where
  round :
      (i : Item) (r : TokenParsedExtendedProperty) (b ts : List Token)
      → IsItem lib i
      → named_parameter r (try_parse_param_name lib (cursor b (item_tokens g i ts)))
        ≡ (store_item i r, cursor (b ++ item_tokens g i []) ts)
  unfolding item_tokens named_parameter assigned is_whitespace_token discriminant param_name_of
  round a_comma r b ts k = rw (try_parse-at lib comma b ts) (simp cursor_laws)
  round (parameter w n v) r b ts (k, k', k'') =
      rw (try_parse-at lib (word w) b (g 1 ++ (eq ∷ (g 2 ++ (value_token v ∷ ts)))), k)
        (simp (attempt_laws, h, parse_parameter_value-value v, k', store-say n v r k''))

  pub round_solid :
      (i : Item) (b ws ts : List Token)
      → AllBlank ws
      → skip_whitespace (cursor b (ws ++ item_tokens g i ts))
        ≡ cursor (b ++ ws) (item_tokens g i ts)
  unfolding item_tokens is_whitespace_token
  round_solid a_comma b ws ts k = simp (attempt_laws, k)
  round_solid (parameter w name v) b ws ts k = simp (attempt_laws, k)

  pub item_tokens_some : (i : Item) (ws ts : List Token) → is_nil (ws ++ item_tokens g i ts) ≡ false
  unfolding item_tokens
  item_tokens_some a_comma [] ts = refl
  item_tokens_some (parameter w name v) [] ts = refl
  item_tokens_some i (w ∷ ws) ts = refl

  no_semi_colon :
      (i : Item) (b ts : List Token)
      → check_token semi_colon (cursor b (item_tokens g i ts)) ≡ false
  unfolding item_tokens discriminant
  no_semi_colon a_comma b ts = simp cursor_laws
  no_semi_colon (parameter w name v) b ts = simp cursor_laws

  pub loop-item :
      (f : ℕ) (i : Item) (r : TokenParsedExtendedProperty) (b ws ts : List Token)
      → AllBlank ws
      → IsItem lib i
      → parameters_loop lib (suc f) r (cursor b (ws ++ item_tokens g i ts))
        ≡ parameters_loop lib f (store_item i r) (cursor (b ++ (ws ++ item_tokens g i [])) ts)
  unfolding parameters_loop
  loop-item f i r b ws ts blank k =
      rw (is_at_end-cursor b (ws ++ item_tokens g i ts), item_tokens_some i ws ts)
        (rw (round_solid i b ws ts blank)
          (rw (no_semi_colon i (b ++ ws) ts, round i r (b ++ ws) ts k) (simp append_assoc)))

  pub length-item_tokens : (i : Item) (ts : List Token) → length ts < length (item_tokens g i ts)
  unfolding item_tokens
  length-item_tokens a_comma ts = omega arith
  length-item_tokens (parameter w name v) ts = omega (
    arith,
    length-append (g 1) (eq ∷ (g 2 ++ (value_token v ∷ ts))),
    length-append (g 2) (value_token v ∷ ts),
  )

  pub item_tokens-append :
      (i : Item) (us ts : List Token) → item_tokens g i us ++ ts ≡ item_tokens g i (us ++ ts)
  unfolding item_tokens
  item_tokens-append a_comma us ts = refl
  item_tokens-append (parameter w name v) us ts = simp append_assoc

module _ (lib : Sqlparser) (ws : List Token) (blank : AllBlank ws) where
  pub loop-ending :
      (e : Option (List Token)) (f : ℕ) (r : TokenParsedExtendedProperty) (b : List Token)
      → length (ending ws e) ≤ f
      → parameters_loop lib f r (cursor b (ending ws e))
        ≡ (r, cursor (b ++ gap_before ws e) (at_ending e))
  unfolding parameters_loop is_whitespace_token discriminant
  loop-ending none zero r b k = simp append-nil
  loop-ending none (suc f) r b k = rw (is_at_end-cursor b []) (simp append-nil)
  loop-ending (some rest) zero r b k =
      absurd (omega (arith, k, length-append ws (semi_colon ∷ rest)))
  loop-ending (some rest) (suc f) r b k =
      rw (is_at_end-cursor b (ws ++ (semi_colon ∷ rest)), is_nil-append ws semi_colon rest)
        (simp (attempt_laws, blank))

  pub loop-items :
      (e : Option (List Token)) (g : ℕ → List Token) (h : (i : ℕ) → AllBlank (g i)) (is : List Item)
      (f : ℕ) (r : TokenParsedExtendedProperty) (b : List Token)
      → AreItems lib is
      → length (items_tokens g is (ending ws e)) ≤ f
      → parameters_loop lib f r (cursor b (items_tokens g is (ending ws e)))
        ≡ (store_all is r, cursor (b ++ items_tokens g is (gap_before ws e)) (at_ending e))
  unfolding items_tokens store_all
  loop-items e g h [] f r b k l = loop-ending e f r b l
  loop-items e g h (i ∷ is) zero r b k l =
      let ts = items_tokens (later g) is (ending ws e) in
      absurd (
        omega (arith, l, length-append (g 0) (item_tokens g i ts), length-item_tokens g h lib i ts))
  loop-items e g h (i ∷ is) (suc f) r b (k, ks) l =
      let ts = items_tokens (later g) is (ending ws e) in
      loop-item g h lib f i r b (g 0) ts (h 0) k
      ∙ loop-items e (later g) (later-AllBlank g h) is f (store_item i r)
          (b ++ (g 0 ++ item_tokens g i [])) ks
          (omega
            (arith, l, length-append (g 0) (item_tokens g i ts), length-item_tokens g h lib i ts))
      ∙ simp (append_assoc, item_tokens-append g h lib)
