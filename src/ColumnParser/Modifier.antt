-- ===== src/ColumnParser/Modifier.antt =====
-- The modifiers of a column as they are written.
use rust_sqlpackage.Prelude.{
  ℕ, ◌≡◌, refl, inl, inr, Bool, true, false, ◌&&◌, Option, none, some, List, [], ◌∷◌, ◌++◌, ◌==◌,
  if◌then◌else◌, Bool-cases, Text, codes, trim,
}
use rust_sqlpackage.Token.{
  Token, Word, word, l_paren, r_paren, eq, minus, number, single_quoted_string,
  national_string_literal, Sqlparser, Keyword, is_whitespace_token,
}
use rust_sqlpackage.TokenParser.{same_kind, is_keyword, is_word_ci}
use rust_sqlpackage.TokenParser.Cursor.{head_is, skip_blank, blanks}
use rust_sqlpackage.TokenParser.Groups.{concat_tokens}
use rust_sqlpackage.TokenParser.Groups.Balanced.{Balanced}
use rust_sqlpackage.Storage.Partition.{upper}
use rust_sqlpackage.ColumnParser.{TokenParsedColumn, Modifiers}

-- CLUSTERED, NONCLUSTERED or neither.
pub data Clustering : Type 0 where
  clustered nonclustered unsaid : Clustering

pub data Modifier : Type 0 where
  identity_plain not_null nullable : Modifier
  identity_group default_group check : List Token → Modifier
  named default_call default_word : Word → Modifier
  default_text default_national masked : Text → Modifier
  default_number default_negative : Text → Bool → Modifier
  rowguidcol sparse filestream hidden persisted generated_start generated_end : Modifier
  primary_key unique : Clustering → Modifier

abbrev pub clustering_tokens : Clustering → List Token → List Token → List Token
clustering_tokens clustered g ts = g ++ (upper "CLUSTERED" ∷ ts)
clustering_tokens nonclustered g ts = g ++ (upper "NONCLUSTERED" ∷ ts)
clustering_tokens unsaid g ts = ts

-- The first word, and what stands behind it; the white space in front of each part is that of `g`.
abbrev pub first_word : Modifier → Keyword
first_word identity_plain = "IDENTITY"
first_word (identity_group inside) = "IDENTITY"
first_word not_null = "NOT"
first_word nullable = "NULL"
first_word (named w) = "CONSTRAINT"
first_word (check inside) = "CHECK"
first_word rowguidcol = "ROWGUIDCOL"
first_word sparse = "SPARSE"
first_word filestream = "FILESTREAM"
first_word hidden = "HIDDEN"
first_word persisted = "PERSISTED"
first_word generated_start = "GENERATED"
first_word generated_end = "GENERATED"
first_word (masked s) = "MASKED"
first_word (primary_key k) = "PRIMARY"
first_word (unique k) = "UNIQUE"
first_word _ = "DEFAULT"

abbrev row_tokens : (ℕ → List Token) → List Token → List Token
row_tokens g ts =
    g 1 ++ (upper "ALWAYS" ∷ (g 2 ++ (upper "AS" ∷ (g 3 ++ (upper "ROW" ∷ (g 4 ++ ts))))))

unfoldable pub argument_tokens : (ℕ → List Token) → Modifier → List Token → List Token
argument_tokens g (identity_group inside) ts = g 1 ++ (l_paren ∷ (inside ++ (r_paren ∷ ts)))
argument_tokens g not_null ts = g 1 ++ (upper "NULL" ∷ ts)
argument_tokens g (named w) ts = g 1 ++ (word w ∷ ts)
argument_tokens g (default_group inside) ts = g 1 ++ (l_paren ∷ (inside ++ (r_paren ∷ ts)))
argument_tokens g (default_text s) ts = g 1 ++ (single_quoted_string s ∷ ts)
argument_tokens g (default_national s) ts = g 1 ++ (national_string_literal s ∷ ts)
argument_tokens g (default_number n l) ts = g 1 ++ (number n l ∷ ts)
argument_tokens g (default_negative n l) ts = g 1 ++ (minus ∷ (number n l ∷ ts))
argument_tokens g (default_call w) ts =
    g 1 ++ (word w ∷ (g 2 ++ (l_paren ∷ (g 3 ++ (r_paren ∷ ts)))))
argument_tokens g (default_word w) ts = g 1 ++ (word w ∷ ts)
argument_tokens g (check inside) ts = g 1 ++ (l_paren ∷ (inside ++ (r_paren ∷ ts)))
argument_tokens g generated_start ts = row_tokens g (upper "START" ∷ ts)
argument_tokens g generated_end ts = row_tokens g (upper "END" ∷ ts)
argument_tokens g (masked s) ts =
    g 1
    ++ (upper "WITH"
        ∷ (g 2
            ++ (l_paren
                ∷ (g 3
                    ++ (upper "FUNCTION"
                        ∷ (g 4
                            ++ (eq
                                ∷ (g 5 ++ (single_quoted_string s ∷ (g 6 ++ (r_paren ∷ ts)))))))))))
argument_tokens g (primary_key k) ts = g 1 ++ (upper "KEY" ∷ clustering_tokens k (g 2) ts)
argument_tokens g (unique k) ts = clustering_tokens k (g 2) ts
argument_tokens g _ ts = ts

abbrev pub modifier_tokens : (ℕ → List Token) → Modifier → List Token → List Token
modifier_tokens g m ts = upper (first_word m) ∷ argument_tokens g m ts

-- Parentheses are in balance.
abbrev pub IsModifier : Modifier → Type 0
IsModifier (identity_group inside) = Balanced inside
IsModifier (default_group inside) = Balanced inside
IsModifier (check inside) = Balanced inside
IsModifier _ = Unit

-- No parenthesis, CLUSTERED or NONCLUSTERED follows, behind any white space.
abbrev pub Ends : List Token → Type 0
Ends ts =
    (head_is (same_kind l_paren) (skip_blank ts) ≡ false)
    × (head_is (is_keyword "CLUSTERED") (skip_blank ts) ≡ false)
    × (head_is (is_word_ci (codes "NONCLUSTERED")) (skip_blank ts) ≡ false)

-- The text in parentheses.
abbrev pub grouped : Text → Text
grouped s = codes "(" ++ (s ++ codes ")")

abbrev is_given : Option Text → Bool
is_given none = false
is_given (some n) = true

-- What a modifier does: `on` sets a field, `apart` also separates CONSTRAINT from DEFAULT.
abbrev on : Modifiers → TokenParsedColumn → Modifiers
on s c = record s { column = c }

abbrev apart : Modifiers → TokenParsedColumn → Modifiers
apart s c = record s { column = c; constraint_immediately_precedes = false }

-- DEFAULT takes the last name of a CONSTRAINT that none has taken, and emits it if only words that do
-- not separate stand between the two.
abbrev set_default : Modifiers → Text → Modifiers
set_default s value = record s {
  column = record s.column {
    default_value = some value;
    default_constraint_name = s.pending_constraint_name;
    emit_default_constraint_name =
        is_given s.pending_constraint_name && s.constraint_immediately_precedes;
  };
  pending_constraint_name = none;
  constraint_immediately_precedes = false;
}

abbrev set_check : Modifiers → Text → Modifiers
set_check s expression = record s {
  column = record s.column {
    check_expression = some expression;
    check_constraint_name = s.pending_constraint_name;
    emit_check_constraint_name =
        is_given s.pending_constraint_name && s.constraint_immediately_precedes;
  };
  pending_constraint_name = none;
  constraint_immediately_precedes = false;
}

-- A text with each quote twice.
unfoldable pub quoted : Text → Text
quoted [] = []
quoted (c ∷ s) = (if c == b'\'' then codes "''" else c ∷ []) ++ quoted s

-- NULL counts only where nothing was said before.
abbrev pub set_nullable : Option Bool → Modifiers → Modifiers
set_nullable none s = apart s (record s.column { nullability = some true })
set_nullable (some b) s = s

abbrev content : Sqlparser → List Token → Text
content lib inside = trim (concat_tokens lib inside)

unfoldable pub apply : Sqlparser → Modifier → Modifiers → Modifiers
apply lib identity_plain s = apart s (record s.column { is_identity = true })
apply lib (identity_group inside) s = apart s (record s.column { is_identity = true })
apply lib not_null s = apart s (record s.column { nullability = some false })
apply lib nullable s = set_nullable s.column.nullability s
apply lib (named w) s = record s {
  pending_constraint_name = some w.value;
  constraint_immediately_precedes = true;
}
apply lib (default_group inside) s = set_default s (grouped (content lib inside))
apply lib (default_text t) s = set_default s (codes "'" ++ (quoted t ++ codes "'"))
apply lib (default_national t) s = set_default s (codes "N'" ++ (quoted t ++ codes "'"))
apply lib (default_number n l) s = set_default s n
apply lib (default_negative n l) s = set_default s (codes "-" ++ n)
apply lib (default_call w) s = set_default s (w.value ++ codes "()")
apply lib (default_word w) s = set_default s w.value
apply lib (check inside) s = set_check s (content lib inside)
apply lib rowguidcol s = on s (record s.column { is_rowguidcol = true })
apply lib sparse s = on s (record s.column { is_sparse = true })
apply lib filestream s = on s (record s.column { is_filestream = true })
apply lib hidden s = apart s (record s.column { is_hidden = true })
apply lib persisted s = on s (record s.column { is_persisted = true })
apply lib generated_start s = apart s (record s.column { is_generated_always_start = true })
apply lib generated_end s = apart s (record s.column { is_generated_always_end = true })
apply lib (masked t) s = apart s (record s.column { masking_function = some t })
apply lib (primary_key k) s = s
apply lib (unique k) s = s

pub skip_blank_again : (ts : List Token) → skip_blank (skip_blank ts) ≡ skip_blank ts
skip_blank_again [] = refl
skip_blank_again (t ∷ ts) = elim (Bool-cases (is_whitespace_token t)) [
  | inl e ↦ rw e (skip_blank_again ts)
  | inr e ↦ rw (e, e)
]

pub no_blanks : (ts : List Token) → blanks (skip_blank ts) ≡ []
no_blanks [] = refl
no_blanks (t ∷ ts) = elim (Bool-cases (is_whitespace_token t)) [
  | inl e ↦ rw e (no_blanks ts)
  | inr e ↦ rw (e, e)
]
