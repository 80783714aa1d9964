-- ===== src/Security/Role/Statements.antt =====
-- Whole statements on roles: CREATE ROLE, ALTER ROLE ... MEMBER and the procedures that do the same.
use rust_sqlpackage.Prelude.{
  ℕ, ◌≡◌, refl, Bool, true, false, Option, none, some, List, [], ◌∷◌, ◌++◌, if◌then◌else◌, Text,
  codes,
}
use rust_sqlpackage.Token.{
  Token, Word, word, comma, single_quoted_string, national_string_literal, discriminant,
  is_whitespace_token, Keyword,
}
use rust_sqlpackage.TokenParser.{is_keyword, is_word_ci}
use rust_sqlpackage.TokenParser.Cursor.{
  cursor, head_is, AllBlank, skip_blank, skip_whitespace-cursor, current_token-cursor,
}
use rust_sqlpackage.Preprocess.Replace.{attempt_laws}
use rust_sqlpackage.Storage.Partition.{upper}
use rust_sqlpackage.Security.Role.{
  parse_create_role, parse_alter_role_membership, parse_string_or_ident, rolemember_call,
  procedure_found,
}

-- A name, as a word or as a string of either kind.
pub data Name : Type 0 where
  as_word : Word → Name
  as_string as_national : Text → Name

abbrev pub name_token : Name → Token
name_token (as_word w) = word w
name_token (as_string s) = single_quoted_string s
name_token (as_national s) = national_string_literal s

abbrev pub name_text : Name → Text
name_text (as_word w) = w.value
name_text (as_string s) = s
name_text (as_national s) = s

-- `AUTHORIZATION owner`, with white space in front of both words.
abbrev pub owner_tokens : Option Word → List Token → List Token → List Token → List Token
owner_tokens none g g' ts = ts
owner_tokens (some o) g g' ts = g ++ (upper "AUTHORIZATION" ∷ (g' ++ (word o ∷ ts)))

abbrev pub owner_text : Option Word → Option Text
owner_text none = none
owner_text (some o) = some o.value

abbrev pub role_tokens : (ℕ → List Token) → Word → Option Word → List Token → List Token
role_tokens g name owner ts =
    g 0
    ++ (upper "CREATE"
        ∷ (g 1 ++ (upper "ROLE" ∷ (g 2 ++ (word name ∷ owner_tokens owner (g 3) (g 4) ts)))))

abbrev pub member_keyword : Bool → Keyword
member_keyword true = "ADD"
member_keyword false = "DROP"

abbrev pub membership_tokens : (ℕ → List Token) → Word → Bool → Word → List Token → List Token
membership_tokens g role is_add member ts =
    g 0
    ++ (upper "ALTER"
        ∷ (g 1
            ++ (upper "ROLE"
                ∷ (g 2
                    ++ (word role
                        ∷ (g 3
                            ++ (upper (member_keyword is_add)
                                ∷ (g 4 ++ (upper "MEMBER" ∷ (g 5 ++ (word member ∷ ts)))))))))))

-- EXEC or EXECUTE in front of a procedure's name, or neither.
pub data Execute : Type 0 where
  exec execute neither : Execute

abbrev pub execute_tokens : Execute → List Token → List Token → List Token
execute_tokens exec g ts = upper "EXEC" ∷ (g ++ ts)
execute_tokens execute g ts = upper "EXECUTE" ∷ (g ++ ts)
execute_tokens neither g ts = ts

abbrev pub procedure : Bool → Token
procedure b = word (record {
  value = if b then codes "sp_addrolemember" else codes "sp_droprolemember";
  quote_style = none;
  keyword = "NoKeyword";
})

abbrev pub call_tokens : (ℕ → List Token) → Execute → Bool → Name → Name → List Token → List Token
call_tokens g e is_add role member ts =
    g 0
    ++ execute_tokens e (g 1) (
        procedure is_add
        ∷ (g 2 ++ (name_token role ∷ (g 3 ++ (comma ∷ (g 4 ++ (name_token member ∷ ts)))))))

parse_string_or_ident-name :
    (n : Name) (b ts : List Token)
    → parse_string_or_ident (cursor b (name_token n ∷ ts))
      ≡ (some (name_text n), cursor (b ++ name_token n ∷ []) ts)
unfolding parse_string_or_ident
parse_string_or_ident-name (as_word w) b ts =
    rw (current_token-cursor b (name_token (as_word w) ∷ ts), parse_string_or_ident)
      (simp attempt_laws)
parse_string_or_ident-name (as_string s) b ts =
    rw (current_token-cursor b (name_token (as_string s) ∷ ts), parse_string_or_ident)
      (simp attempt_laws)
parse_string_or_ident-name (as_national s) b ts =
    rw (current_token-cursor b (name_token (as_national s) ∷ ts), parse_string_or_ident)
      (simp attempt_laws)

name_solid : (n : Name) → is_whitespace_token (name_token n) ≡ false
unfolding is_whitespace_token
name_solid (as_word w) = refl
name_solid (as_string s) = refl
name_solid (as_national s) = refl

procedure_found-procedure :
    (is_add : Bool) (b ts : List Token)
    → procedure_found (cursor b (procedure is_add ∷ ts))
      ≡ (some is_add, cursor b (procedure is_add ∷ ts))
unfolding is_word_ci procedure_found
procedure_found-procedure true b ts = simp attempt_laws
procedure_found-procedure false b ts = simp attempt_laws

module _ (g : ℕ → List Token) (h : (i : ℕ) → AllBlank (g i)) where
  -- CREATE ROLE name, with AUTHORIZATION and an owner or with no such word behind the name, in any white
  -- space, gives the name and the owner.
  pub parse_create_role-role_tokens :
      (name : Word) (owner : Option Word) (b ts : List Token)
      → head_is (is_word_ci (codes "AUTHORIZATION")) (skip_blank ts) ≡ false
      → (parse_create_role (cursor b (role_tokens g name owner ts))).0
        ≡ some (record { name = name.value; owner = owner_text owner })
  unfolding parse_create_role is_whitespace_token is_word_ci is_keyword
  parse_create_role-role_tokens name none b ts e = simp (attempt_laws, h, skip_whitespace-cursor, e)
  parse_create_role-role_tokens name (some o) b ts e = simp (attempt_laws, h)

  membership :
      (role : Word) (is_add : Bool) (member : Word) (b ts : List Token)
      → parse_alter_role_membership (cursor b (membership_tokens g role is_add member ts)) ≡ (
        some (record { role = role.value; member = member.value; is_add = is_add }),
        cursor (b ++ membership_tokens g role is_add member []) ts,
      )
  unfolding parse_alter_role_membership is_whitespace_token is_word_ci is_keyword
  membership role true member b ts = simp (attempt_laws, h)
  membership role false member b ts = simp (attempt_laws, h)

  call :
      (e : Execute) (is_add : Bool) (role member : Name) (b ts : List Token)
      → rolemember_call (cursor b (call_tokens g e is_add role member ts)) ≡ (
        some (record { role = name_text role; member = name_text member; is_add = is_add }),
        cursor (b ++ call_tokens g e is_add role member []) ts,
      )
  unfolding rolemember_call is_whitespace_token is_word_ci is_keyword discriminant
  call exec is_add role member b ts =
      simp (attempt_laws, h, procedure_found-procedure, name_solid, parse_string_or_ident-name)
  call execute is_add role member b ts =
      simp (attempt_laws, h, procedure_found-procedure, name_solid, parse_string_or_ident-name)
  call neither true role member b ts =
      simp (attempt_laws, h, procedure_found-procedure, name_solid, parse_string_or_ident-name)
  call neither false role member b ts =
      simp (attempt_laws, h, procedure_found-procedure, name_solid, parse_string_or_ident-name)

  -- ALTER ROLE role ADD or DROP MEMBER member, in any white space, gives these three, and a call of
  -- sp_addrolemember or sp_droprolemember with the same two names, as words or strings, after EXEC,
  -- EXECUTE or neither, gives the same.
  pub membership-call :
      (role member : Word) (is_add : Bool) (e : Execute) (role' member' : Name)
      (b ts b' ts' : List Token)
      → name_text role' ≡ role.value
      → name_text member' ≡ member.value
      → ((parse_alter_role_membership (cursor b (membership_tokens g role is_add member ts))).0
          ≡ some (record { role = role.value; member = member.value; is_add = is_add }))
        × ((rolemember_call (cursor b' (call_tokens g e is_add role' member' ts'))).0
            ≡ (parse_alter_role_membership
                (cursor b (membership_tokens g role is_add member ts))).0)
  membership-call role member is_add e role' member' b ts b' ts' r m =
      simp (membership, call, r, m) (refl, refl)
