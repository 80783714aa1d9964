-- ===== src/Tests/Texts.antt =====
-- The functions on names, on concrete texts.
use rust_sqlpackage.Prelude.{
  ◌≡◌, refl, true, false, none, some, [], ◌∷◌, map, if◌then◌else◌, codes, to_ascii_uppercase,
  trim_matches,
}
use rust_sqlpackage.Identifier.Qualified.{
  normalize_object_name, bracket_word, split_qualified_name, split_qualified_name_tokenized,
  word_values, has_dot, first_two, is_qualified_name, begins_with, contains,
  normalize_object_name-normalize_object_name,
}
use rust_sqlpackage.Token.{Sqlparser, period}

-- A tokenizer that knows the texts of the example.
abbrev reader : Sqlparser
reader = record {
  tokenize = λ s.
      if contains (codes ".") s
      then some (bracket_word (codes "app") ∷ period ∷ bracket_word (codes "T") ∷ [])
      else none;
  display = λ t. [];
  debug = λ t. [];
  to_uppercase = map to_ascii_uppercase;
}

is_qualified : is_qualified_name (codes " [a.b] ") ≡ false
unfolding is_qualified_name contains begins_with
is_qualified = refl

is_qualified_mixed : is_qualified_name (codes "[a].b") ≡ true
unfolding is_qualified_name contains begins_with
is_qualified_mixed = refl

normalize_object_name-normalize_object_name_example :
    normalize_object_name reader
      (normalize_object_name reader (codes " app.T ") (codes "dbo"))
      (codes "x")
    ≡ normalize_object_name reader (codes " app.T ") (codes "dbo")
unfolding split_qualified_name split_qualified_name_tokenized word_values has_dot first_two contains
    begins_with trim_matches
normalize_object_name-normalize_object_name_example =
    normalize_object_name-normalize_object_name reader (codes " app.T ") (codes "dbo") (codes "x")
      refl
