-- ===== src/Index/Tail.antt =====
-- What stands behind the columns of an index.
use rust_sqlpackage.Prelude.{
  ℕ, ◌≡◌, false, Option, none, some, List, [], ◌∷◌, ◌++◌, map, Text, trim,
}
use rust_sqlpackage.Token.{
  Token, Word, l_paren, r_paren, semi_colon, is_whitespace_token, Sqlparser,
}
use rust_sqlpackage.TokenParser.Gaps.{aside}
use rust_sqlpackage.Storage.Partition.{upper}
use rust_sqlpackage.Constraint.Names.{names_tokens}
use rust_sqlpackage.Index.{TokenParsedIndex}
use rust_sqlpackage.Index.Predicate.{tokens_to_predicate_string}
use rust_sqlpackage.Index.With.{Setting, AreSettings, apply_settings, settings_tokens}
use rust_sqlpackage.Index.Clauses.{NoStop}

abbrev pub Included : Type 0
Included = Option (Word × List Word)

-- A predicate's first token and the others, with the white space up to the next clause.
abbrev pub Predicate : Type 0
Predicate = Option (Token × List Token)

abbrev pub Settings : Type 0
Settings = Option (Setting × List Setting)

abbrev pub IsPredicate : Predicate → Type 0
IsPredicate none = Unit
IsPredicate (some (t, ps)) = (is_whitespace_token t ≡ false) × NoStop (t ∷ ps)

abbrev pub IsSettings : Settings → Type 0
IsSettings none = Unit
IsSettings (some (s, ss)) = AreSettings s ss

-- White space in front of the clause that follows a predicate counts to the predicate.
abbrev pub gap_behind : (ℕ → List Token) → Predicate → ℕ → List Token
gap_behind g none i = g i
gap_behind g (some p) i = []

-- The end of the tokens, or a semicolon and whatever follows.
abbrev pub ending : Option (List Token) → List Token
ending none = []
ending (some us) = semi_colon ∷ us

unfoldable pub with_clause :
    (ℕ → List Token) → Predicate → Settings → Option (List Token) → List Token
with_clause g p none e = gap_behind g p 56 ++ ending e
with_clause g p (some (s, ss)) e =
    gap_behind g p 54
    ++ (upper "WITH"
        ∷ (g 55 ++ (l_paren ∷ (g 39 ++ settings_tokens g s ss (r_paren ∷ (g 56 ++ ending e))))))

unfoldable pub where_and_with :
    (ℕ → List Token) → Predicate → Settings → Option (List Token) → List Token
where_and_with g none o e = with_clause g none o e
where_and_with g (some (t, ps)) o e =
    g 52 ++ (upper "WHERE" ∷ (g 53 ++ (t ∷ (ps ++ with_clause g (some (t, ps)) o e))))

unfoldable pub tail_tokens :
    (ℕ → List Token) → Included → Predicate → Settings → Option (List Token) → List Token
tail_tokens g none p o e = where_and_with g p o e
tail_tokens g (some (c, ds)) p o e =
    g 50
    ++ (upper "INCLUDE"
        ∷ (g 51
            ++ (l_paren
                ∷ (aside g 23 ++ names_tokens (aside g) c ds (r_paren ∷ where_and_with g p o e)))))

-- What the clauses give.
abbrev pub with_included : Included → TokenParsedIndex → TokenParsedIndex
with_included none r = r
with_included (some (c, ds)) r = record r {
  include_columns = c.value ∷ map (λ (d : Word). d.value) ds;
}

abbrev pub unless_empty : Text → Option Text
unless_empty [] = none
unless_empty (c ∷ s) = some (c ∷ s)

abbrev pub with_filter : Option Text → TokenParsedIndex → TokenParsedIndex
with_filter none r = r
with_filter (some s) r = record r { filter_predicate = some s }

-- A predicate's text: its tokens printed, without white space at its ends; none for an empty text.
abbrev pub predicate_text : Sqlparser → Predicate → Option Text
predicate_text lib none = none
predicate_text lib (some (t, ps)) = unless_empty (trim (tokens_to_predicate_string lib (t ∷ ps)))

abbrev pub with_settings : Sqlparser → Settings → TokenParsedIndex → TokenParsedIndex
with_settings lib none r = r
with_settings lib (some (s, ss)) r = apply_settings lib s ss r

abbrev pub with_tail :
    Sqlparser → Included → Predicate → Settings → TokenParsedIndex → TokenParsedIndex
with_tail lib i p o r = with_settings lib o (with_filter (predicate_text lib p) (with_included i r))
