-- ===== src/TokenParser/Gaps.antt =====
-- White space at the numbered places of a statement: `g i` stands at place i. A list has its places
-- again for each element, each time 100 further on, and a second list has its own, 50 aside.
use rust_sqlpackage.Prelude.{ℕ, ◌+◌, List}
use rust_sqlpackage.Token.{Token}
use rust_sqlpackage.TokenParser.Cursor.{AllBlank}

unfoldable pub later : (ℕ → List Token) → ℕ → List Token
later g i = g (i + 100)

unfoldable pub aside : (ℕ → List Token) → ℕ → List Token
aside g i = g (i + 50)

module _ (g : ℕ → List Token) (h : (i : ℕ) → AllBlank (g i)) where
  pub later-AllBlank : (i : ℕ) → AllBlank (later g i)
  unfolding later
  later-AllBlank i = h (i + 100)

  pub aside-AllBlank : (i : ℕ) → AllBlank (aside g i)
  unfolding aside
  aside-AllBlank i = h (i + 50)
