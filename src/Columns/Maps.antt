-- ===== src/Columns/Maps.antt =====
-- Hash maps and hash sets whose keys are texts, as lists.
use rust_sqlpackage.Prelude.{
  ◌≡◌, refl, sym, inl, inr, Bool, true, false, ◌&&◌, ◌||◌, Option, none, some, List, [], ◌∷◌, arith,
  ◌==◌, if◌then◌else◌, Bool-cases, both_true, Text,
}

unfoldable pub text_eq : Text → Text → Bool
text_eq [] [] = true
text_eq (a ∷ s) (b ∷ t) = a == b && text_eq s t
text_eq _ _ = false

pub text_eq-eq : (s t : Text) → text_eq s t ≡ true → s ≡ t
unfolding text_eq
text_eq-eq [] [] h = refl
text_eq-eq [] (b ∷ t) h = ground (arith, h)
text_eq-eq (a ∷ s) [] h = ground (arith, h)
text_eq-eq (a ∷ s) (b ∷ t) h =
    let (h₀, h₁) = both_true (a == b) (text_eq s t) h in
    let head : a ≡ b = ground (arith, h₀) in rw (head, text_eq-eq s t h₁)

-- `HashMap::get`
unfoldable pub lookup {ℓ} : {V : Type ℓ} → Text → List (Text × V) → Option V
lookup k [] = none
lookup k (e ∷ es) = let rest = lookup k es in if text_eq k e.0 then some e.1 else rest

-- `HashMap::insert`: an entry with the key is overwritten.
unfoldable pub insert {ℓ} : {V : Type ℓ} → Text → V → List (Text × V) → List (Text × V)
insert k v [] = (k, v) ∷ []
insert k v (e ∷ es) = let rest = insert k v es in if text_eq k e.0 then (k, v) ∷ es else e ∷ rest

-- `HashSet::contains` and `HashSet::insert`
unfoldable pub has_text : Text → List Text → Bool
has_text k [] = false
has_text k (t ∷ ts) = text_eq k t || has_text k ts

unfoldable pub add_text : Text → List Text → List Text
add_text k ts = if has_text k ts then ts else k ∷ ts

module _ {ℓ} {V : Type ℓ} (k j : Text) (v : V) where
  pub lookup-insert :
      (es : List (Text × V))
      → lookup k (insert j v es) ≡ (if text_eq k j then some v else lookup k es)
  unfolding lookup insert
  lookup-insert [] = refl
  lookup-insert (e ∷ es) = elim (Bool-cases (text_eq j e.0)) [
    | inl h ↦ elim (Bool-cases (text_eq k j)) [
      | inl f ↦ rw (h, f)
      | inr f ↦ let g : text_eq k e.0 ≡ false = rw (sym (text_eq-eq j e.0 h)) f in rw (h, f, g)
    ]
    | inr h ↦ elim (Bool-cases (text_eq k j)) [
      | inl f ↦
          let g : text_eq k e.0 ≡ false = rw (text_eq-eq k j f) h in
          rw (h, f, g, lookup-insert es) (rw f)
      | inr f ↦ rw (h, f, lookup-insert es) (rw f)
    ]
  ]
