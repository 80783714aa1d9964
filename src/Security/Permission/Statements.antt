-- ===== src/Security/Permission/Statements.antt =====
-- Whole GRANT, DENY and REVOKE statements.
use rust_sqlpackage.Prelude.{
  ℕ, ◌≡◌, refl, Bool, true, false, ◌||◌, none, some, List, [], ◌∷◌, ◌++◌, append-nil, arith,
  if◌then◌else◌, codes,
}
use rust_sqlpackage.Token.{Token, Word, word, Sqlparser, is_whitespace_token}
use rust_sqlpackage.TokenParser.{is_keyword, remaining}
use rust_sqlpackage.TokenParser.Cursor.{cursor, AllBlank, remaining-cursor}
use rust_sqlpackage.Preprocess.Replace.{attempt_laws}
use rust_sqlpackage.Security.Gap.{skip_whitespace-gap}
use rust_sqlpackage.Security.Permission.{no_flags, flags_loop, parse_permission, join_words}
use rust_sqlpackage.Security.Permission.Actions.{
  Action, action_tokens, action_of, parse_action-action, action_solid, skip_whitespace-option_for,
  skip_grant_option_for-option_for, option_for-append,
}
use rust_sqlpackage.Security.Permission.Names.{
  Part, AreParts, name_tokens, name_tokens-append, words, parse_permission_name-parts, Stops,
  Stops-ends,
}
use rust_sqlpackage.Security.Permission.Targets.{
  Target, whole_database, a_schema, an_object, target_tokens, target_tokens-append, target_of,
  IsTarget, on_target-target, skip_whitespace-target_end,
}
use rust_sqlpackage.Security.Permission.Options.{
  Clause, AreSpaced, options_tokens, options_tokens-IsSolid, note_all, IsRest, flags_loop-options,
}

-- TO or FROM
abbrev pub to_word : Bool → Word
to_word b =
    if b
    then record { value = codes "TO"; quote_style = none; keyword = "TO" }
    else record { value = codes "FROM"; quote_style = none; keyword = "FROM" }

pub record Statement : Type 0 where
  pub action : Action
  pub first : Part
  pub more : List Part
  pub target : Target
  pub is_to : Bool
  pub principal : Word
  pub options : List Clause

-- The part behind the permission's name.
abbrev pub rest_tokens : (ℕ → List Token) → (ℕ → List Token) → Statement → List Token → List Token
rest_tokens g g' s ts =
    target_tokens g' s.target (g 5)
      (word (to_word s.is_to) ∷ (g 6 ++ (word s.principal ∷ (g 7 ++ options_tokens s.options ts))))

abbrev pub statement_tokens :
    (ℕ → List Token) → (ℕ → List Token) → Statement → List Token → List Token
statement_tokens g g' s ts =
    g 4 ++ action_tokens g s.action (name_tokens (s.first ∷ s.more) (rest_tokens g g' s ts))

pub record IsStatement (s : Statement) : Type 0 where
  pub parts : AreParts (s.first ∷ s.more)
  pub no_grant : is_keyword "GRANT" (word s.first.part) ≡ false
  pub on : IsTarget s.target
  pub spaced : AreSpaced s.options

rest_tokens-Stops :
    (g g' : ℕ → List Token) (s : Statement) (ts : List Token) → Stops (rest_tokens g g' s ts)
unfolding is_keyword is_whitespace_token target_tokens
rest_tokens-Stops g g' s ts = go s.target s.is_to
  where
    go :
        (t : Target) (to : Bool)
        → Stops (
            target_tokens g' t (g 5) (
              word (to_word to)
              ∷ (g 6 ++ (word s.principal ∷ (g 7 ++ options_tokens s.options ts)))))
    go whole_database true = Stops-ends _ _ refl refl
    go whole_database false = Stops-ends _ _ refl refl
    go (a_schema c n) to = Stops-ends _ _ refl refl
    go (an_object true p n) to = Stops-ends _ _ refl refl
    go (an_object false p n) to = Stops-ends _ _ refl refl

no_on : (to : Bool) → is_keyword "ON" (word (to_word to)) ≡ false
unfolding is_keyword
no_on true = refl
no_on false = refl

to_or_from :
    (to : Bool)
    → (is_keyword "TO" (word (to_word to)) || is_keyword "FROM" (word (to_word to))) ≡ true
unfolding is_keyword
to_or_from true = refl
to_or_from false = refl

flags_at_end :
    (os : List Clause) (b ts : List Token)
    → AreSpaced os
    → IsRest ts
    → flags_loop
        (remaining (cursor b (options_tokens os ts)))
        no_flags
        (cursor b (options_tokens os ts))
      ≡ (note_all os no_flags, cursor (b ++ options_tokens os []) ts)
flags_at_end os b ts h r =
    flags_loop-options ts r (remaining (cursor b (options_tokens os ts))) os no_flags b h
      (omega (arith, remaining-cursor b (options_tokens os ts)))

module _ (g g' : ℕ → List Token) (h : (i : ℕ) → AllBlank (g i))
    (h' : (i : ℕ) → AllBlank (g' i)) where
  -- GRANT, DENY, REVOKE or REVOKE GRANT OPTION FOR, with a permission of one or more words, a target or
  -- none, TO or FROM a principal, and any number of WITH GRANT OPTION and CASCADE, in any white space:
  -- the result has the action, the words in upper case, the target, the principal and the two flags,
  -- and the parser stops behind the statement. The first word is not GRANT, a target without OBJECT::
  -- does not begin with the words SCHEMA or OBJECT, and what follows is neither white space nor one of
  -- the words WITH and CASCADE.
  pub parse_permission-Statement :
      (lib : Sqlparser) (s : Statement) (b ts : List Token)
      → IsStatement s
      → IsRest ts
      → parse_permission lib (cursor b (statement_tokens g g' s ts)) ≡ (
        some (record {
          action = action_of s.action;
          permission = join_words (words lib (s.first ∷ s.more));
          target = target_of s.target;
          principal = s.principal.value;
          with_grant_option = (note_all s.options no_flags).with_grant_option;
          cascade = (note_all s.options no_flags).cascade;
        }),
        cursor (b ++ statement_tokens g g' s []) ts,
      )
  unfolding parse_permission is_whitespace_token name_tokens
  parse_permission-Statement lib s b ts k r =
      let rest = rest_tokens g g' s ts in
      let name = λ (b : List Token).
        parse_permission_name-parts lib rest (rest_tokens-Stops g g' s ts) s.first s.more b
          k.parts in
      let target = λ (b us : List Token).
        on_target-target g' h' (g 5) (h 5) (to_word s.is_to) b us s.target k.on (no_on s.is_to) in
      let behind = λ (b us : List Token).
        skip_whitespace-target_end g' h' (g 5) (h 5) (to_word s.is_to) b us s.target in
      let flags = λ (b : List Token). flags_at_end s.options b ts k.spaced r in
      let gap = λ (b : List Token).
        skip_whitespace-gap b (g 7) (options_tokens s.options ts) (h 7)
          (options_tokens-IsSolid s.options ts r.solid) in
      let already =
        λ (b : List Token). skip_whitespace-gap b [] rest tt (rest_tokens-Stops g g' s ts).solid in
      simp (
        attempt_laws,
        h,
        action_solid,
        already,
        append-nil,
        parse_action-action,
        k.no_grant,
        skip_whitespace-option_for g h,
        skip_grant_option_for-option_for g h,
        name,
        target,
        behind,
        to_or_from,
        gap,
        flags,
        name_tokens-append,
        target_tokens-append,
        option_for-append,
      )
