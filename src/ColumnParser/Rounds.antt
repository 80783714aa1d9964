-- ===== src/ColumnParser/Rounds.antt =====
-- The loop's round at each modifier.
use rust_sqlpackage.Prelude.{
  ℕ, ◌≡◌, refl, sym, inl, inr, Bool, true, Option, none, some, List, [], ◌∷◌, ◌++◌, append-nil,
  ◌==◌, Bool-cases, Text,
}
use rust_sqlpackage.Token.{Token, Sqlparser, discriminant, is_whitespace_token}
use rust_sqlpackage.TokenParser.{TokenParser, is_keyword, is_word_ci, skip_whitespace}
use rust_sqlpackage.TokenParser.Cursor.{cursor, AllBlank, skip_whitespace-cursor}
use rust_sqlpackage.TokenParser.Groups.Balanced.{skip_parenthesized-Balanced}
use rust_sqlpackage.Storage.Partition.{storage_laws}
use rust_sqlpackage.Constraint.Expression.{content_loop-Balanced}
use rust_sqlpackage.ColumnParser.{
  Modifiers, Round, double_quotes, set_null, modifier_at, flag, separates, identity,
  constraint_name, default_clause, check_clause, generated, parse_default_value, default_at,
  call_or_word, parse_parenthesized_expression, parse_masking_function,
}
use rust_sqlpackage.ColumnParser
use rust_sqlpackage.ColumnParser.Modifier.{
  Modifier, quoted, set_nullable, identity_plain, identity_group, not_null, nullable, named,
  default_group, default_text, default_national, default_number, default_negative, default_call,
  default_word, check, rowguidcol, sparse, filestream, hidden, persisted, generated_start,
  generated_end, masked, primary_key, unique, clustered, nonclustered, unsaid, argument_tokens,
  modifier_tokens, IsModifier, Ends, apply, skip_blank_again, no_blanks,
}

abbrev pub round_of : Sqlparser → Modifier → Round
round_of lib identity_plain = separates identity
round_of lib (identity_group inside) = separates identity
round_of lib not_null = ColumnParser.not_null
round_of lib nullable = ColumnParser.nullable
round_of lib (named w) = constraint_name
round_of lib (check inside) = check_clause lib
round_of lib rowguidcol = flag (λ c. record c { is_rowguidcol = true })
round_of lib sparse = flag (λ c. record c { is_sparse = true })
round_of lib filestream = flag (λ c. record c { is_filestream = true })
round_of lib hidden = separates (flag (λ c. record c { is_hidden = true }))
round_of lib persisted = flag (λ c. record c { is_persisted = true })
round_of lib generated_start = separates generated
round_of lib generated_end = separates generated
round_of lib (masked t) = separates ColumnParser.masked
round_of lib (primary_key k) = ColumnParser.primary_key
round_of lib (unique k) = ColumnParser.unique
round_of lib _ = default_clause lib

double_quotes-quoted : (s : Text) → double_quotes s ≡ quoted s
unfolding double_quotes quoted
double_quotes-quoted [] = refl
double_quotes-quoted (c ∷ s) = elim (Bool-cases (c == b'\'')) [
  | inl e ↦ rw (e, double_quotes-quoted s)
  | inr e ↦ rw (e, double_quotes-quoted s)
]

set_null-nullable : (b : Option Bool) (s : Modifiers) → set_null b s ≡ set_nullable b s
set_null-nullable none s = refl
set_null-nullable (some b) s = refl

-- The round, and the white space behind it.
abbrev pub finish : Modifiers × TokenParser → Modifiers × TokenParser
finish r = (r.0, skip_whitespace r.1)

module _ (lib : Sqlparser) (g : ℕ → List Token) (h : (i : ℕ) → AllBlank (g i)) where
  pub modifier_at-modifier :
      (m : Modifier) (b ts : List Token)
      → modifier_at lib (cursor b (modifier_tokens g m ts)) ≡ some (round_of lib m)
  unfolding modifier_at is_keyword is_word_ci
  modifier_at-modifier identity_plain b ts = simp storage_laws
  modifier_at-modifier (identity_group inside) b ts = simp storage_laws
  modifier_at-modifier not_null b ts = simp storage_laws
  modifier_at-modifier nullable b ts = simp storage_laws
  modifier_at-modifier (named w) b ts = simp storage_laws
  modifier_at-modifier (default_group inside) b ts = simp storage_laws
  modifier_at-modifier (default_text t) b ts = simp storage_laws
  modifier_at-modifier (default_national t) b ts = simp storage_laws
  modifier_at-modifier (default_number n l) b ts = simp storage_laws
  modifier_at-modifier (default_negative n l) b ts = simp storage_laws
  modifier_at-modifier (default_call w) b ts = simp storage_laws
  modifier_at-modifier (default_word w) b ts = simp storage_laws
  modifier_at-modifier (check inside) b ts = simp storage_laws
  modifier_at-modifier rowguidcol b ts = simp storage_laws
  modifier_at-modifier sparse b ts = simp storage_laws
  modifier_at-modifier filestream b ts = simp storage_laws
  modifier_at-modifier hidden b ts = simp storage_laws
  modifier_at-modifier persisted b ts = simp storage_laws
  modifier_at-modifier generated_start b ts = simp storage_laws
  modifier_at-modifier generated_end b ts = simp storage_laws
  modifier_at-modifier (masked t) b ts = simp storage_laws
  modifier_at-modifier (primary_key k) b ts = simp storage_laws
  modifier_at-modifier (unique k) b ts = simp storage_laws

  pub round-modifier :
      (m : Modifier) (s : Modifiers) (b ts : List Token)
      → IsModifier m
      → Ends ts
      → finish (round_of lib m s (cursor b (modifier_tokens g m ts)))
        ≡ (apply lib m s, skip_whitespace (cursor (b ++ modifier_tokens g m []) ts))
  unfolding identity ColumnParser.not_null ColumnParser.nullable constraint_name default_clause
      check_clause generated ColumnParser.masked ColumnParser.primary_key ColumnParser.unique
      parse_default_value default_at call_or_word parse_parenthesized_expression
      parse_masking_function argument_tokens apply is_keyword is_word_ci is_whitespace_token
      discriminant
  round-modifier identity_plain s b ts v (e, e', e'') =
      simp (
        storage_laws, h, append-nil, skip_whitespace-cursor, e, e', e'', skip_blank_again,
        no_blanks,
      )
  round-modifier (identity_group inside) s b ts v (e, e', e'') =
      simp (storage_laws, h, skip_parenthesized-Balanced v)
  round-modifier not_null s b ts v (e, e', e'') = simp (storage_laws, h)
  round-modifier nullable s b ts v (e, e', e'') =
      rw (sym (set_null-nullable s.column.nullability s)) (simp (storage_laws, h))
  round-modifier (named w) s b ts v (e, e', e'') = simp (storage_laws, h)
  round-modifier (default_group inside) s b ts v (e, e', e'') =
      simp (storage_laws, h, content_loop-Balanced lib v)
  round-modifier (default_text t) s b ts v (e, e', e'') =
      simp (storage_laws, h, double_quotes-quoted)
  round-modifier (default_national t) s b ts v (e, e', e'') =
      simp (storage_laws, h, double_quotes-quoted)
  round-modifier (default_number n l) s b ts v (e, e', e'') = simp (storage_laws, h)
  round-modifier (default_negative n l) s b ts v (e, e', e'') = simp (storage_laws, h)
  round-modifier (default_call w) s b ts v (e, e', e'') = simp (storage_laws, h)
  round-modifier (default_word w) s b ts v (e, e', e'') =
      simp (
        storage_laws, h, append-nil, skip_whitespace-cursor, e, e', e'', skip_blank_again,
        no_blanks,
      )
  round-modifier (check inside) s b ts v (e, e', e'') =
      simp (storage_laws, h, content_loop-Balanced lib v)
  round-modifier rowguidcol s b ts v (e, e', e'') = simp (storage_laws, h)
  round-modifier sparse s b ts v (e, e', e'') = simp (storage_laws, h)
  round-modifier filestream s b ts v (e, e', e'') = simp (storage_laws, h)
  round-modifier hidden s b ts v (e, e', e'') = simp (storage_laws, h)
  round-modifier persisted s b ts v (e, e', e'') = simp (storage_laws, h)
  round-modifier generated_start s b ts v (e, e', e'') = simp (storage_laws, h)
  round-modifier generated_end s b ts v (e, e', e'') = simp (storage_laws, h)
  round-modifier (masked t) s b ts v (e, e', e'') = simp (storage_laws, h)
  round-modifier (primary_key clustered) s b ts v (e, e', e'') = simp (storage_laws, h)
  round-modifier (primary_key nonclustered) s b ts v (e, e', e'') = simp (storage_laws, h)
  round-modifier (primary_key unsaid) s b ts v (e, e', e'') =
      simp (
        storage_laws, h, append-nil, skip_whitespace-cursor, e, e', e'', skip_blank_again,
        no_blanks,
      )
  round-modifier (unique clustered) s b ts v (e, e', e'') = simp (storage_laws, h)
  round-modifier (unique nonclustered) s b ts v (e, e', e'') = simp (storage_laws, h)
  round-modifier (unique unsaid) s b ts v (e, e', e'') =
      simp (
        storage_laws, h, append-nil, skip_whitespace-cursor, e, e', e'', skip_blank_again,
        no_blanks,
      )
