-- ===== src/Sequence/Options.antt =====
-- The options of a sequence as they are written, and one round of the loop.
use rust_sqlpackage.Prelude.{
  ℕ, zero, suc, ◌^◌, ◌<◌, ◌≡◌, refl, ap, Bool, true, false, Option, none, some, List, [], ◌∷◌, ◌++◌,
  append_assoc, is_nil, Text, codes, ℤ, pos, negsuc, parse_i64, neg_i64, AreDigits, decimal,
  parse_i64-digits,
}
use rust_sqlpackage.Token.{
  Token, Word, word, number, minus, Sqlparser, Keyword, is_whitespace_token, discriminant,
}
use rust_sqlpackage.TokenParser.{skip_whitespace, is_keyword, is_word_ci}
use rust_sqlpackage.TokenParser.Cursor.{cursor, AllBlank}
use rust_sqlpackage.TokenParser.Literals.{parse_data_type_simple, parse_signed_integer, integer_of}
use rust_sqlpackage.Preprocess.Replace.{attempt_laws}
use rust_sqlpackage.Sequence.{TokenParsedSequence, option_at, no_option}

-- An integer: its sign with the white space behind it, its digits, and the number that they write.
pub record Value : Type 0 where
  pub sign : Option (List Token)
  pub digits : Text
  pub long : Bool
  pub magnitude : ℕ

abbrev is_negative : Option (List Token) → Bool
is_negative none = false
is_negative (some gap) = true

abbrev pub GapIsBlank : Option (List Token) → Type 0
GapIsBlank none = Unit
GapIsBlank (some gap) = AllBlank gap

-- The number below 2^63 that the digits write.
abbrev pub IsValue : Value → Type 0
IsValue v =
    GapIsBlank v.sign
    × AreDigits v.digits
    × (is_nil v.digits ≡ false)
    × (decimal 0 v.digits ≡ v.magnitude)
    × (v.magnitude < 2 ^ 63)

abbrev negated : ℕ → ℤ
negated zero = pos 0
negated (suc n) = negsuc n

abbrev pub value_of : Value → ℤ
value_of v = elim v.sign [ none ↦ pos v.magnitude | some gap ↦ negated v.magnitude ]

abbrev signed : Option (List Token) → Token → List Token → List Token
signed none n ts = n ∷ ts
signed (some gap) n ts = minus ∷ (gap ++ (n ∷ ts))

abbrev pub value_tokens : Value → List Token → List Token
value_tokens v ts = signed v.sign (number v.digits v.long) ts

parse_signed_integer-signed :
    (sign : Option (List Token)) (digits : Text) (long : Bool) (value : ℤ) (b ts : List Token)
    → GapIsBlank sign
    → integer_of (is_negative sign) (number digits long) ≡ some value
    → parse_signed_integer (cursor b (signed sign (number digits long) ts))
      ≡ (some value, cursor (b ++ signed sign (number digits long) []) ts)
unfolding parse_signed_integer discriminant is_whitespace_token
parse_signed_integer-signed none digits long value b ts hg hv = simp (attempt_laws, hv)
parse_signed_integer-signed (some gap) digits long value b ts hg hv = simp (attempt_laws, hv)

skip_whitespace-signed :
    (sign : Option (List Token)) (n : Text) (long : Bool) (b ws ts : List Token)
    → AllBlank ws
    → skip_whitespace (cursor b (ws ++ signed sign (number n long) ts))
      ≡ cursor (b ++ ws) (signed sign (number n long) ts)
unfolding is_whitespace_token
skip_whitespace-signed none n long b ws ts h = simp attempt_laws
skip_whitespace-signed (some gap) n long b ws ts h = simp attempt_laws

signed-append :
    (sign : Option (List Token)) (n : Token) (us ts : List Token)
    → signed sign n us ++ ts ≡ signed sign n (us ++ ts)
signed-append none n us ts = refl
signed-append (some gap) n us ts = simp append_assoc

negated_lem : (n : ℕ) → neg_i64 (pos n) ≡ negated n
unfolding neg_i64
negated_lem zero = refl
negated_lem (suc n) = refl

integer_of-digits :
    (sign : Option (List Token)) (digits : Text) (long : Bool) (n : ℕ)
    → parse_i64 digits ≡ some (pos n)
    → integer_of (is_negative sign) (number digits long)
      ≡ some (elim sign [ none ↦ pos n | some gap ↦ negated n ])
integer_of-digits none digits long n e = rw e
integer_of-digits (some gap) digits long n e = rw e (ap some (negated_lem n))

parse_value :
    (v : Value)
    → IsValue v
    → (b ts : List Token)
    → parse_signed_integer (cursor b (value_tokens v ts))
      ≡ (some (value_of v), cursor (b ++ value_tokens v []) ts)
parse_value v (hg, hd, hn, he, hb) b ts =
    parse_signed_integer-signed v.sign v.digits v.long (value_of v) b ts hg (
      integer_of-digits v.sign v.digits v.long v.magnitude
        (parse_i64-digits v.digits v.magnitude hd hn he hb))

ruleset value_laws = (attempt_laws, skip_whitespace-signed, signed-append)

pub data SequenceOption : Type 0 where
  as_type : Word → SequenceOption
  start increment minimum maximum cache : Value → SequenceOption
  no_minimum no_maximum no_cycle no_cache cycle : SequenceOption

-- The word of a keyword, in upper case.
abbrev pub upper : Keyword → Word
upper k = record { value = codes k; quote_style = none; keyword = k }

abbrev pub first_word : Bool → SequenceOption → Word
first_word is_alter (as_type t) = upper "AS"
first_word true (start v) = upper "RESTART"
first_word false (start v) = upper "START"
first_word is_alter (increment v) = upper "INCREMENT"
first_word is_alter (minimum v) = upper "MINVALUE"
first_word is_alter (maximum v) = upper "MAXVALUE"
first_word is_alter (cache v) = upper "CACHE"
first_word is_alter cycle = upper "CYCLE"
first_word is_alter _ = upper "NO"

-- The tokens behind the first word, in front of `ts`.
abbrev pub behind : SequenceOption → List Token → List Token → List Token → List Token
behind (as_type t) g₁ g₂ ts = g₁ ++ (word t ∷ ts)
behind (start v) g₁ g₂ ts = g₁ ++ (word (upper "WITH") ∷ (g₂ ++ value_tokens v ts))
behind (increment v) g₁ g₂ ts = g₁ ++ (word (upper "BY") ∷ (g₂ ++ value_tokens v ts))
behind (minimum v) g₁ g₂ ts = g₁ ++ value_tokens v ts
behind (maximum v) g₁ g₂ ts = g₁ ++ value_tokens v ts
behind (cache v) g₁ g₂ ts = g₁ ++ value_tokens v ts
behind no_minimum g₁ g₂ ts = g₁ ++ (word (upper "MINVALUE") ∷ ts)
behind no_maximum g₁ g₂ ts = g₁ ++ (word (upper "MAXVALUE") ∷ ts)
behind no_cycle g₁ g₂ ts = g₁ ++ (word (upper "CYCLE") ∷ ts)
behind no_cache g₁ g₂ ts = g₁ ++ (word (upper "CACHE") ∷ ts)
behind cycle g₁ g₂ ts = ts

-- An option with the white space inside it, in front of `ts`.
abbrev pub option_tokens : Bool → SequenceOption → List Token → List Token → List Token → List Token
option_tokens is_alter o g₁ g₂ ts = word (first_word is_alter o) ∷ behind o g₁ g₂ ts

-- What an option says of the sequence.
abbrev pub apply : Sqlparser → SequenceOption → TokenParsedSequence → TokenParsedSequence
apply lib (as_type t) r = record r { data_type = some (lib.to_uppercase t.value) }
apply lib (start v) r = record r { start_value = some (value_of v) }
apply lib (increment v) r = record r { increment_value = some (value_of v) }
apply lib (minimum v) r = record r { min_value = some (value_of v) }
apply lib (maximum v) r = record r { max_value = some (value_of v) }
apply lib (cache v) r = record r { cache_size = some (value_of v) }
apply lib no_minimum r = record r { has_no_min_value = true; min_value = none }
apply lib no_maximum r = record r { has_no_max_value = true; max_value = none }
apply lib no_cycle r = record r { is_cycling = false }
apply lib no_cache r = record r { cache_size = some (pos 0) }
apply lib cycle r = record r { is_cycling = true }

-- A data type is changed by no ALTER.
abbrev pub IsOption : Bool → SequenceOption → Type 0
IsOption is_alter (as_type t) = is_alter ≡ false
IsOption is_alter (start v) = IsValue v
IsOption is_alter (increment v) = IsValue v
IsOption is_alter (minimum v) = IsValue v
IsOption is_alter (maximum v) = IsValue v
IsOption is_alter (cache v) = IsValue v
IsOption is_alter _ = Unit

module _ (lib : Sqlparser) (r : TokenParsedSequence) (b g₁ g₂ ts : List Token) (h₁ : AllBlank g₁)
    (h₂ : AllBlank g₂) where
  -- At an option, a round of the loop reads it whole and notes what it says.
  pub option_at-option :
      (is_alter : Bool) (o : SequenceOption)
      → IsOption is_alter o
      → option_at lib is_alter r (cursor b (option_tokens is_alter o g₁ g₂ ts))
        ≡ (apply lib o r, cursor (b ++ option_tokens is_alter o g₁ g₂ []) ts)
  unfolding option_at no_option parse_data_type_simple is_whitespace_token is_word_ci is_keyword
  option_at-option true (as_type t) h = cc
  option_at-option false (as_type t) h = simp value_laws
  option_at-option true (start v) h = simp (value_laws, parse_value v h)
  option_at-option true (increment v) h = simp (value_laws, parse_value v h)
  option_at-option true (minimum v) h = simp (value_laws, parse_value v h)
  option_at-option true (maximum v) h = simp (value_laws, parse_value v h)
  option_at-option true (cache v) h = simp (value_laws, parse_value v h)
  option_at-option true no_minimum h = simp value_laws
  option_at-option true no_maximum h = simp value_laws
  option_at-option true no_cycle h = simp value_laws
  option_at-option true no_cache h = simp value_laws
  option_at-option true cycle h = simp value_laws
  option_at-option false (start v) h = simp (value_laws, parse_value v h)
  option_at-option false (increment v) h = simp (value_laws, parse_value v h)
  option_at-option false (minimum v) h = simp (value_laws, parse_value v h)
  option_at-option false (maximum v) h = simp (value_laws, parse_value v h)
  option_at-option false (cache v) h = simp (value_laws, parse_value v h)
  option_at-option false no_minimum h = simp value_laws
  option_at-option false no_maximum h = simp value_laws
  option_at-option false no_cycle h = simp value_laws
  option_at-option false no_cache h = simp value_laws
  option_at-option false cycle h = simp value_laws

pub behind-append :
    (o : SequenceOption) (g₁ g₂ us ts : List Token)
    → behind o g₁ g₂ us ++ ts ≡ behind o g₁ g₂ (us ++ ts)
behind-append (start v) g₁ g₂ us ts = simp (append_assoc, signed-append)
behind-append (increment v) g₁ g₂ us ts = simp (append_assoc, signed-append)
behind-append (minimum v) g₁ g₂ us ts = simp (append_assoc, signed-append)
behind-append (maximum v) g₁ g₂ us ts = simp (append_assoc, signed-append)
behind-append (cache v) g₁ g₂ us ts = simp (append_assoc, signed-append)
behind-append cycle g₁ g₂ us ts = refl
behind-append _ g₁ g₂ us ts = simp append_assoc
