-- ===== src/Security/User/Clauses.antt =====
-- Whole CREATE USER statements.
use rust_sqlpackage.Prelude.{
  ℕ, zero, suc, ◌≤◌, ◌≡◌, refl, Bool, true, false, none, some, List, [], ◌∷◌, ◌++◌, append-nil,
  append_assoc, arith, length, is_nil, length-append,
}
use rust_sqlpackage.Token.{Token, Word, word, eq, is_whitespace_token, discriminant}
use rust_sqlpackage.TokenParser.{is_keyword, is_word_ci, remaining}
use rust_sqlpackage.TokenParser.Cursor.{cursor, AllBlank, remaining-cursor}
use rust_sqlpackage.Preprocess.Replace.{attempt_laws}
use rust_sqlpackage.TokenParser.Gaps.{later, later-AllBlank}
use rust_sqlpackage.Storage.Partition.{upper}
use rust_sqlpackage.Security.Gap.{IsSolid, skip_whitespace-gap}
use rust_sqlpackage.Security.User.{
  UserOptions, login, without_login, external_provider, default, for_login, without, from_external,
  with_default_schema, or_else, user_round, user_loop, user_options, parse_create_user,
}

-- A clause as written; the white space behind each part is that of `g`.
pub data Clause : Type 0 where
  of_login : Word → Clause
  of_none : Clause
  of_provider : Clause
  of_schema : Bool → Word → Clause

abbrev equals : Bool → List Token → List Token → List Token
equals true g ts = eq ∷ (g ++ ts)
equals false g ts = ts

unfoldable pub clause_tokens : (ℕ → List Token) → Clause → List Token → List Token
clause_tokens g (of_login w) ts =
    upper "FOR" ∷ (g 0 ++ (upper "LOGIN" ∷ (g 1 ++ (word w ∷ (g 2 ++ ts)))))
clause_tokens g of_none ts = upper "WITHOUT" ∷ (g 0 ++ (upper "LOGIN" ∷ (g 1 ++ ts)))
clause_tokens g of_provider ts =
    upper "FROM" ∷ (g 0 ++ (upper "EXTERNAL" ∷ (g 1 ++ (upper "PROVIDER" ∷ (g 2 ++ ts)))))
clause_tokens g (of_schema equal w) ts =
    upper "WITH"
    ∷ (g 0 ++ (upper "DEFAULT_SCHEMA" ∷ (g 1 ++ equals equal (g 2) (word w ∷ (g 3 ++ ts)))))

abbrev note : Clause → UserOptions → UserOptions
note (of_login w) s = record s { auth_type = login w.value }
note of_none s = record s { auth_type = without_login }
note of_provider s = record s { auth_type = external_provider }
note (of_schema equal w) s = record s { default_schema = some w.value }

unfoldable pub note_all : List Clause → UserOptions → UserOptions
note_all [] s = s
note_all (c ∷ cs) s = note_all cs (note c s)

unfoldable pub clauses_tokens : (ℕ → List Token) → List Clause → List Token
clauses_tokens g [] = []
clauses_tokens g (c ∷ cs) = clause_tokens g c (clauses_tokens (later g) cs)

-- A later clause of the same kind overrides an earlier one.
abbrev pub user_tokens : (ℕ → List Token) → Word → List Clause → List Token
user_tokens g name cs =
    g 4
    ++ (upper "CREATE"
        ∷ (g 5 ++ (upper "USER" ∷ (g 6 ++ (word name ∷ (g 7 ++ clauses_tokens g cs))))))

behind : (ws ts : List Token) → length ts ≤ length (ws ++ ts)
behind ws ts = omega (arith, length-append ws ts)

module _ (g : ℕ → List Token) (h : (i : ℕ) → AllBlank (g i)) where
  user_round-clause :
      (c : Clause) (s : UserOptions) (b ts : List Token)
      → IsSolid ts
      → user_round s (cursor b (clause_tokens g c ts))
        ≡ (some (note c s), cursor (b ++ clause_tokens g c []) ts)
  unfolding user_round or_else for_login without from_external with_default_schema clause_tokens
      is_keyword is_word_ci is_whitespace_token discriminant
  user_round-clause (of_login w) s b ts solid =
      let gap = λ (b : List Token). skip_whitespace-gap b (g 2) ts (h 2) solid in
      simp (attempt_laws, h, gap, append-nil)
  user_round-clause of_none s b ts solid =
      let gap = λ (b : List Token). skip_whitespace-gap b (g 1) ts (h 1) solid in
      simp (attempt_laws, h, gap, append-nil)
  user_round-clause of_provider s b ts solid =
      let gap = λ (b : List Token). skip_whitespace-gap b (g 2) ts (h 2) solid in
      simp (attempt_laws, h, gap, append-nil)
  user_round-clause (of_schema true w) s b ts solid =
      let gap = λ (b : List Token). skip_whitespace-gap b (g 3) ts (h 3) solid in
      simp (attempt_laws, h, gap, append-nil)
  user_round-clause (of_schema false w) s b ts solid =
      let gap = λ (b : List Token). skip_whitespace-gap b (g 3) ts (h 3) solid in
      simp (attempt_laws, h, gap, append-nil)

  clauses_tokens-IsSolid : (cs : List Clause) → IsSolid (clauses_tokens g cs)
  unfolding clauses_tokens clause_tokens is_whitespace_token
  clauses_tokens-IsSolid [] = refl
  clauses_tokens-IsSolid (of_login w ∷ cs) = refl
  clauses_tokens-IsSolid (of_none ∷ cs) = refl
  clauses_tokens-IsSolid (of_provider ∷ cs) = refl
  clauses_tokens-IsSolid (of_schema equal w ∷ cs) = refl

  clause_tokens-append :
      (c : Clause) (us ts : List Token) → clause_tokens g c us ++ ts ≡ clause_tokens g c (us ++ ts)
  unfolding clause_tokens
  clause_tokens-append (of_login w) us ts = simp append_assoc
  clause_tokens-append of_none us ts = simp append_assoc
  clause_tokens-append of_provider us ts = simp append_assoc
  clause_tokens-append (of_schema true w) us ts = simp append_assoc
  clause_tokens-append (of_schema false w) us ts = simp append_assoc

  clause_some : (c : Clause) (ts : List Token) → is_nil (clause_tokens g c ts) ≡ false
  unfolding clause_tokens
  clause_some (of_login w) ts = refl
  clause_some of_none ts = refl
  clause_some of_provider ts = refl
  clause_some (of_schema equal w) ts = refl

  clause_longer : (c : Clause) (ts : List Token) → suc (length ts) ≤ length (clause_tokens g c ts)
  unfolding clause_tokens
  clause_longer (of_login w) ts = omega (
    arith,
    behind (g 0) (upper "LOGIN" ∷ (g 1 ++ (word w ∷ (g 2 ++ ts)))),
    behind (g 1) (word w ∷ (g 2 ++ ts)),
    behind (g 2) ts,
  )
  clause_longer of_none ts =
      omega (arith, behind (g 0) (upper "LOGIN" ∷ (g 1 ++ ts)), behind (g 1) ts)
  clause_longer of_provider ts = omega (
    arith,
    behind (g 0) (upper "EXTERNAL" ∷ (g 1 ++ (upper "PROVIDER" ∷ (g 2 ++ ts)))),
    behind (g 1) (upper "PROVIDER" ∷ (g 2 ++ ts)),
    behind (g 2) ts,
  )
  clause_longer (of_schema true w) ts = omega (
    arith,
    behind (g 0) (upper "DEFAULT_SCHEMA" ∷ (g 1 ++ (eq ∷ (g 2 ++ (word w ∷ (g 3 ++ ts)))))),
    behind (g 1) (eq ∷ (g 2 ++ (word w ∷ (g 3 ++ ts)))),
    behind (g 2) (word w ∷ (g 3 ++ ts)),
    behind (g 3) ts,
  )
  clause_longer (of_schema false w) ts = omega (
    arith,
    behind (g 0) (upper "DEFAULT_SCHEMA" ∷ (g 1 ++ (word w ∷ (g 3 ++ ts)))),
    behind (g 1) (word w ∷ (g 3 ++ ts)),
    behind (g 3) ts,
  )

user_loop-clauses :
    (g : ℕ → List Token) (h : (i : ℕ) → AllBlank (g i)) (f : ℕ) (cs : List Clause) (s : UserOptions)
    (b : List Token)
    → length cs ≤ f
    → user_loop f s (cursor b (clauses_tokens g cs))
      ≡ (some (note_all cs s), cursor (b ++ clauses_tokens g cs) [])
unfolding user_loop clauses_tokens note_all
user_loop-clauses g h zero [] s b k = simp append-nil
user_loop-clauses g h zero (c ∷ cs) s b k = elim k [ ]
user_loop-clauses g h (suc f) [] s b k = simp (attempt_laws, append-nil)
user_loop-clauses g h (suc f) (c ∷ cs) s b k =
    let one =
      user_round-clause g h c s b (clauses_tokens (later g) cs)
        (clauses_tokens-IsSolid (later g) (later-AllBlank g h) cs) in
    let rest =
      user_loop-clauses (later g) (later-AllBlank g h) f cs (note c s) (b ++ clause_tokens g c [])
        (omega (arith, k)) in
    simp (attempt_laws, clause_some g h, one, rest, clause_tokens-append g h)

fuel_enough :
    (g : ℕ → List Token) (h : (i : ℕ) → AllBlank (g i)) (cs : List Clause)
    → length cs ≤ length (clauses_tokens g cs)
unfolding clauses_tokens
fuel_enough g h [] = omega arith
fuel_enough g h (c ∷ cs) = omega (
  arith,
  fuel_enough (later g) (later-AllBlank g h) cs,
  clause_longer g h c (clauses_tokens (later g) cs),
)

-- The options of a user without clauses.
abbrev pub unsaid : UserOptions
unsaid = record { auth_type = default; default_schema = none }

module _ (g : ℕ → List Token) (h : (i : ℕ) → AllBlank (g i)) where
  -- CREATE USER name, then any clauses FOR LOGIN, WITHOUT LOGIN, FROM EXTERNAL PROVIDER and
  -- WITH DEFAULT_SCHEMA, with any white space at each place up to the end of the tokens, gives
  -- that name and the options of the clauses, of which a later one overrides an earlier one.
  pub parse_create_user-clauses :
      (name : Word) (cs : List Clause) (b : List Token)
      → parse_create_user (cursor b (user_tokens g name cs)) ≡ (
        some (record {
          name = name.value;
          auth_type = (note_all cs unsaid).auth_type;
          default_schema = (note_all cs unsaid).default_schema;
        }),
        cursor (b ++ user_tokens g name cs) [],
      )
  unfolding parse_create_user user_options is_keyword is_word_ci is_whitespace_token
  parse_create_user-clauses name cs b =
      let gap = λ (b : List Token).
        skip_whitespace-gap b (g 7) (clauses_tokens g cs) (h 7) (clauses_tokens-IsSolid g h cs) in
      let loop = λ (b : List Token).
        user_loop-clauses g h (remaining (cursor b (clauses_tokens g cs))) cs unsaid b
          (omega (arith, remaining-cursor b (clauses_tokens g cs), fuel_enough g h cs)) in
      simp (attempt_laws, h, gap, loop)
