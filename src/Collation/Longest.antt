-- ===== src/Collation/Longest.antt =====
-- The first entry that fits a collation's name, against the longest.
use rust_sqlpackage.Prelude.{
  ℕ, ◌≤◌, ◌<◌, ◌≡◌, refl, inl, inr, Bool, true, false, not, ◌&&◌, Option, none, some, List, [], ◌∷◌,
  ◌++◌, arith, ltb, leb, ◌==◌, if◌then◌else◌, leb→le, Bool-cases, both_true, length, Text, codes,
}
use rust_sqlpackage.Identifier.Qualified.{begins_with}
use rust_sqlpackage.Collation.{first_match, lcid_or_default, parse_lcid}
use rust_sqlpackage.Collation.Table.{collation_lcid_map}

abbrev pub Entry : Type 0
Entry = Text × ℕ

abbrev longer : Entry → Option Entry → Option Entry
longer e none = some e
longer e (some r) = if ltb (length e.0) (length r.0) then some r else some e

-- Of the entries whose prefix the name has, the one with the longest prefix, the first of these where
-- several are equally long.
unfoldable pub longest_match : List Entry → Text → Option Entry
longest_match [] name = none
longest_match (e ∷ es) name =
    let later = longest_match es name in if begins_with e.0 name then longer e later else later

-- No later prefix begins with an earlier one.
abbrev hides_none : Entry → List Entry → Bool
hides_none e [] = true
hides_none e (r ∷ rs) = not (begins_with e.0 r.0) && hides_none e rs

unfoldable pub in_order : List Entry → Bool
in_order [] = true
in_order (e ∷ es) = hides_none e es && in_order es

same_char : (c d x : ℕ) → (c == x) ≡ true → (d == x) ≡ true → (c == d) ≡ true
same_char c d x h k = ground (arith, h, k)

begins_with-begins_with :
    (p q name : Text)
    → begins_with p name ≡ true
    → begins_with q name ≡ true
    → length p ≤ length q
    → begins_with p q ≡ true
unfolding begins_with
begins_with-begins_with [] q name hp hq k = refl
begins_with-begins_with (c ∷ p) [] name hp hq k = elim k [ ]
begins_with-begins_with (c ∷ p) (d ∷ q) [] hp hq k = ground (arith, hp)
begins_with-begins_with (c ∷ p) (d ∷ q) (x ∷ name) hp hq k =
    let (h, hp') = both_true (c == x) (begins_with p name) hp in
    let (h', hq') = both_true (d == x) (begins_with q name) hq in
    simp (same_char c d x h h', begins_with-begins_with p q name hp' hq' (omega (arith, k)))

shorter_prefix :
    (p q name : Text)
    → begins_with p name ≡ true
    → begins_with q name ≡ true
    → not (begins_with p q) ≡ true
    → length q < length p
shorter_prefix p q name hp hq h = elim (Bool-cases (leb (length p) (length q))) [
  | inl k ↦
      ground (arith, begins_with-begins_with p q name hp hq (leb→le (length p) (length q) k), h)
  | inr k ↦ ground (arith, k)
]

module _ (e : Entry) (name : Text) (fits : begins_with e.0 name ≡ true) where
  IsShorter : Option Entry → Type 0
  IsShorter none = Unit
  IsShorter (some r) = length r.0 < length e.0

  IsShorter-longer :
      (r : Entry) (o : Option Entry)
      → length r.0 < length e.0
      → IsShorter o
      → IsShorter (longer r o)
  unfolding IsShorter
  IsShorter-longer r none h k = h
  IsShorter-longer r (some q) h k = elim (Bool-cases (ltb (length r.0) (length q.0))) [
    | inl f ↦ rw f k
    | inr f ↦ rw f h
  ]

  longest_match-IsShorter :
      (es : List Entry) → hides_none e es ≡ true → IsShorter (longest_match es name)
  unfolding longest_match IsShorter
  longest_match-IsShorter [] h = tt
  longest_match-IsShorter (r ∷ rs) h =
      let (hidden, more) = both_true (not (begins_with e.0 r.0)) (hides_none e rs) h in
      let later = longest_match-IsShorter rs more in
      elim (Bool-cases (begins_with r.0 name)) [
        | inl f ↦ rw f (
            IsShorter-longer r (longest_match rs name) (shorter_prefix e.0 r.0 name fits f hidden)
              later)
        | inr f ↦ rw f later
      ]

  longer-IsShorter : (o : Option Entry) → IsShorter o → longer e o ≡ some e
  unfolding IsShorter
  longer-IsShorter none h = refl
  longer-IsShorter (some r) h = ground (arith, h)

-- In a table where no later prefix begins with an earlier one, the first entry that fits a name is
-- the longest.
longest_match-first_match :
    (es : List Entry) (name : Text)
    → in_order es ≡ true
    → longest_match es name ≡ first_match es name
unfolding longest_match first_match in_order
longest_match-first_match [] name h = refl
longest_match-first_match (e ∷ es) name h =
    let (hidden, more) = both_true (hides_none e es) (in_order es) h in
    elim (Bool-cases (begins_with e.0 name)) [
      | inl f ↦ rw f (
          longer-IsShorter e name f (longest_match es name)
            (longest_match-IsShorter e name f es hidden))
      | inr f ↦ rw f (longest_match-first_match es name more)
    ]

-- The table without the entry for Malayalam.
abbrev pub malayalam : Text
malayalam = codes "Malayalam"

unfoldable pub leave_out : Text → List Entry → List Entry
leave_out p [] = []
leave_out p (e ∷ es) = let rest = leave_out p es in if begins_with p e.0 then rest else e ∷ rest

begins_with_trans :
    (p q name : Text)
    → begins_with p q ≡ true
    → begins_with q name ≡ true
    → begins_with p name ≡ true
unfolding begins_with
begins_with_trans [] q name h k = refl
begins_with_trans (c ∷ p) [] name h k = ground (arith, h)
begins_with_trans (c ∷ p) (d ∷ q) [] h k = ground (arith, k)
begins_with_trans (c ∷ p) (d ∷ q) (x ∷ name) h k =
    let (h₀, h₁) = both_true (c == d) (begins_with p q) h in
    let (k₀, k₁) = both_true (d == x) (begins_with q name) k in
    let same : (c == x) ≡ true = ground (arith, h₀, k₀) in
    simp (same, begins_with_trans p q name h₁ k₁)

-- Entries that cannot fit the name make no difference.
module _ (p name : Text) (unfit : begins_with p name ≡ false) where
  no_fit : (e : Entry) → begins_with p e.0 ≡ true → begins_with e.0 name ≡ false
  no_fit e h = elim (Bool-cases (begins_with e.0 name)) [
    | inl k ↦ ground (arith, begins_with_trans p e.0 name h k, unfit)
    | inr k ↦ k
  ]

  first_match-leave_out :
      (es : List Entry) → first_match es name ≡ first_match (leave_out p es) name
  unfolding first_match leave_out
  first_match-leave_out [] = refl
  first_match-leave_out (e ∷ es) = elim (Bool-cases (begins_with p e.0)) [
    | inl h ↦ rw (h, no_fit e h, first_match-leave_out es)
    | inr h ↦ rw (h, first_match-leave_out es)
  ]

  longest_match-leave_out :
      (es : List Entry) → longest_match es name ≡ longest_match (leave_out p es) name
  unfolding longest_match leave_out
  longest_match-leave_out [] = refl
  longest_match-leave_out (e ∷ es) = elim (Bool-cases (begins_with p e.0)) [
    | inl h ↦ rw (h, no_fit e h, longest_match-leave_out es)
    | inr h ↦ rw (h, longest_match-leave_out es)
  ]

map-InOrder : in_order (leave_out malayalam collation_lcid_map) ≡ true
unfolding in_order leave_out collation_lcid_map begins_with
map-InOrder = refl

-- For every name that does not begin with Malayalam, the locale is that of the longest prefix of the
-- table that the name has, and 1033 where it has none.
pub parse_lcid-longest_match :
    (name : Text)
    → begins_with malayalam name ≡ false
    → parse_lcid name ≡ lcid_or_default (longest_match collation_lcid_map name)
unfolding parse_lcid
parse_lcid-longest_match name h =
    rw
      (
        first_match-leave_out malayalam name h collation_lcid_map,
        longest_match-leave_out malayalam name h collation_lcid_map,
        longest_match-first_match (leave_out malayalam collation_lcid_map) name map-InOrder,
      )
      refl

-- Every name that begins with Malayalam gets the locale of Malay, 1086, and not that of its longest
-- prefix in the table, 1100.
pub parse_lcid-Malayalam :
    (rest : Text)
    → (parse_lcid (malayalam ++ rest) ≡ 1086)
      × (lcid_or_default (longest_match collation_lcid_map (malayalam ++ rest)) ≡ 1100)
unfolding parse_lcid first_match longest_match collation_lcid_map begins_with
parse_lcid-Malayalam rest = (refl, refl)
