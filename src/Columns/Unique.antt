-- ===== src/Columns/Unique.antt =====
-- The table that an unqualified column belongs to.
use rust_sqlpackage.Prelude.{
  ◌≡◌, refl, ap, inl, inr, Bool, true, false, Option, none, some, List, [], ◌∷◌, ◌++◌,
  if◌then◌else◌, Bool-cases, is_nil, Text,
}
use rust_sqlpackage.Columns.{
  ColumnRegistry, Views, table_has_column, find_tables_with_column, find_table_with_column,
}

module _ (lib : Views) (r : ColumnRegistry) (column : Text) where
  abbrev pub has : Text → Bool
  has t = table_has_column lib r t column

  unfoldable pub NoneHas : List Text → Type 0
  NoneHas [] = Unit
  NoneHas (t ∷ ts) = (has t ≡ false) × NoneHas ts

  -- One table in scope has the column, and it is this one.
  pub record IsOnly (scope : List Text) (t : Text) : Type 0 where
    pub before : List Text
    pub after : List Text
    pub split : scope ≡ before ++ t ∷ after
    pub it_has : has t ≡ true
    pub none_before : NoneHas before
    pub none_after : NoneHas after

  -- Two places in scope have it.
  pub record AreTwo (scope : List Text) : Type 0 where
    pub before : List Text
    pub first : Text
    pub middle : List Text
    pub second : Text
    pub after : List Text
    pub split : scope ≡ before ++ first ∷ (middle ++ second ∷ after)
    pub first_has : has first ≡ true
    pub second_has : has second ≡ true

  -- What the scope says of the column, and the answer that is to be given.
  pub data Resolved (scope : List Text) : Option Text → Type 0 where
    unknown : NoneHas scope → Resolved scope none
    unique : (t : Text) → IsOnly scope t → Resolved scope (some t)
    ambiguous : AreTwo scope → Resolved scope none

  data Matches (scope : List Text) : List Text → Type 0 where
    nobody : NoneHas scope → Matches scope []
    one : (t : Text) → IsOnly scope t → Matches scope (t ∷ [])
    more : (t u : Text) (ts : List Text) → AreTwo scope → has t ≡ true → Matches scope (t ∷ u ∷ ts)

  pass :
      (x : Text) (scope ms : List Text) → has x ≡ false → Matches scope ms → Matches (x ∷ scope) ms
  unfolding NoneHas
  pass x scope ms h (nobody n) = nobody (h, n)
  pass x scope ms h (one t o) = one t (record {
    before = x ∷ o.before;
    after = o.after;
    split = ap (λ s. x ∷ s) o.split;
    it_has = o.it_has;
    none_before = (h, o.none_before);
    none_after = o.none_after;
  })
  pass x scope ms h (more t u ts a k) =
      more t u ts
        (record {
          before = x ∷ a.before;
          first = a.first;
          middle = a.middle;
          second = a.second;
          after = a.after;
          split = ap (λ s. x ∷ s) a.split;
          first_has = a.first_has;
          second_has = a.second_has;
        })
        k

  take_it :
      (x : Text) (scope ms : List Text)
      → has x ≡ true
      → Matches scope ms
      → Matches (x ∷ scope) (x ∷ ms)
  unfolding NoneHas
  take_it x scope ms h (nobody n) = one x (record {
    before = [];
    after = scope;
    split = refl;
    it_has = h;
    none_before = tt;
    none_after = n;
  })
  take_it x scope ms h (one t o) =
      more x t []
        (record {
          before = [];
          first = x;
          middle = o.before;
          second = t;
          after = o.after;
          split = ap (λ s. x ∷ s) o.split;
          first_has = h;
          second_has = o.it_has;
        })
        h
  take_it x scope ms h (more t u ts a k) =
      more x t (u ∷ ts)
        (record {
          before = [];
          first = x;
          middle = a.before;
          second = a.first;
          after = a.middle ++ a.second ∷ a.after;
          split = ap (λ s. x ∷ s) a.split;
          first_has = h;
          second_has = a.first_has;
        })
        h

  find_tables-Matches :
      (scope : List Text) → Matches scope (find_tables_with_column lib r column scope)
  unfolding find_tables_with_column NoneHas
  find_tables-Matches [] = nobody tt
  find_tables-Matches (x ∷ scope) = elim (Bool-cases (has x)) [
    | inl h ↦
        rw h (
          take_it x scope (find_tables_with_column lib r column scope) h
            (find_tables-Matches scope))
    | inr h ↦
        rw h
          (pass x scope (find_tables_with_column lib r column scope) h (find_tables-Matches scope))
  ]

  answer :
      (scope ms : List Text)
      → Matches scope ms
      → Resolved scope (elim ms [ [] ↦ none | t ∷ ts ↦ if is_nil ts then some t else none ])
  answer scope ms (nobody n) = unknown n
  answer scope ms (one t o) = unique t o
  answer scope ms (more t u ts a k) = ambiguous a

  -- A column resolves to a table or view exactly where one place in scope has it: no other
  -- place has it then, and where there is no answer no place in scope has it, or two have. A
  -- view with SELECT * is a place like any other, and has the columns that are registered for
  -- it.
  pub find_table_with_column-Resolved :
      (scope : List Text) → Resolved scope (find_table_with_column lib column scope r)
  unfolding find_table_with_column
  find_table_with_column-Resolved scope =
      answer scope (find_tables_with_column lib r column scope) (find_tables-Matches scope)
