-- ===== src/Constraint/TableName.antt =====
-- A table's name as it is written, in front of another token.
use rust_sqlpackage.Prelude.{
  ℕ, ◌≡◌, refl, false, Option, none, some, List, [], ◌∷◌, ◌++◌, append_assoc, Text, codes,
}
use rust_sqlpackage.Token.{Token, Word, word, period, discriminant, is_whitespace_token}
use rust_sqlpackage.TokenParser.{
  TokenParser, same_kind, parse_schema_qualified_name, skip_whitespace,
}
use rust_sqlpackage.TokenParser.Cursor.{cursor, AllBlank}
use rust_sqlpackage.Storage.Partition.{storage_laws}

-- A table's name, with its schema or without.
abbrev pub TableName : Type 0
TableName = Option Word × Word

abbrev pub table_tokens : (ℕ → List Token) → TableName → List Token → List Token
table_tokens g (none, t) ts = word t ∷ ts
table_tokens g (some s, t) ts = word s ∷ (g 16 ++ (period ∷ (g 17 ++ (word t ∷ ts))))

abbrev pub qualified : TableName → Text × Text
qualified (none, t) = (codes "dbo", t.value)
qualified (some s, t) = (s.value, t.value)

module _ (g : ℕ → List Token) (h : (i : ℕ) → AllBlank (g i)) where
  pub at_table :
      (t : TableName) (i : ℕ) (b ts : List Token)
      → skip_whitespace (cursor b (g i ++ table_tokens g t ts))
        ≡ cursor (b ++ g i) (table_tokens g t ts)
  unfolding is_whitespace_token
  at_table (none, t) i b ts = simp (storage_laws, h)
  at_table (some s, t) i b ts = simp (storage_laws, h)

  pub table_tokens-append :
      (t : TableName) (us ts : List Token) → table_tokens g t us ++ ts ≡ table_tokens g t (us ++ ts)
  table_tokens-append (none, t) us ts = refl
  table_tokens-append (some s, t) us ts = simp append_assoc

  -- Where the parser stands behind a name: if no schema is written, it has looked for a dot behind the
  -- white space.
  pub table_end : TableName → ℕ → List Token → List Token → TokenParser
  table_end (none, t) i b ts = cursor (b ++ word t ∷ g i) ts
  table_end (some s, t) i b ts = cursor (b ++ table_tokens g (some s, t) []) (g i ++ ts)

  pub parse_schema_qualified_name-table :
      (t : TableName) (i : ℕ) (x : Token) (b ts : List Token)
      → is_whitespace_token x ≡ false
      → same_kind period x ≡ false
      → parse_schema_qualified_name (cursor b (table_tokens g t (g i ++ (x ∷ ts))))
        ≡ (some (qualified t), table_end t i b (x ∷ ts))
  unfolding parse_schema_qualified_name table_end is_whitespace_token discriminant
  parse_schema_qualified_name-table (none, t) i x b ts solid e = simp (storage_laws, h, solid, e)
  parse_schema_qualified_name-table (some s, t) i x b ts solid e = simp (storage_laws, h)

  pub skip_whitespace-table_end :
      (t : TableName) (i : ℕ) (x : Token) (b ts : List Token)
      → is_whitespace_token x ≡ false
      → skip_whitespace (table_end t i b (x ∷ ts)) ≡ cursor (b ++ table_tokens g t (g i)) (x ∷ ts)
  unfolding table_end
  skip_whitespace-table_end (none, t) i x b ts solid = simp (storage_laws, solid)
  skip_whitespace-table_end (some s, t) i x b ts solid = simp (storage_laws, h, solid)
