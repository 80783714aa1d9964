-- ===== src/Security/Permission/Actions.antt =====
-- The first words of a statement: GRANT, DENY, REVOKE, and GRANT OPTION FOR.
use rust_sqlpackage.Prelude.{
  ℕ, ◌≡◌, refl, false, some, List, [], ◌∷◌, ◌++◌, append-nil, append_assoc,
}
use rust_sqlpackage.Token.{Token, Word, word, is_whitespace_token}
use rust_sqlpackage.TokenParser.{is_keyword, is_word_ci, skip_whitespace}
use rust_sqlpackage.TokenParser.Cursor.{cursor, AllBlank}
use rust_sqlpackage.Preprocess.Replace.{attempt_laws}
use rust_sqlpackage.Storage.Partition.{upper}
use rust_sqlpackage.Security.Permission.{
  PermissionAction, grant, deny, revoke, parse_action, skip_grant_option_for,
}

-- What the statement does, REVOKE with GRANT OPTION FOR or without.
pub data Action : Type 0 where
  granting denying revoking revoking_option : Action

unfoldable pub action_word : Action → Token
action_word granting = upper "GRANT"
action_word denying = upper "DENY"
action_word _ = upper "REVOKE"

unfoldable pub option_for : (ℕ → List Token) → Action → List Token → List Token
option_for g revoking_option ts =
    upper "GRANT" ∷ (g 1 ++ (upper "OPTION" ∷ (g 2 ++ (upper "FOR" ∷ (g 3 ++ ts)))))
option_for g _ ts = ts

abbrev pub action_tokens : (ℕ → List Token) → Action → List Token → List Token
action_tokens g a ts = action_word a ∷ (g 0 ++ option_for g a ts)

abbrev pub action_of : Action → PermissionAction
action_of granting = grant
action_of denying = deny
action_of _ = revoke

pub parse_action-action :
    (a : Action) (b ts : List Token)
    → parse_action (cursor b (action_word a ∷ ts))
      ≡ (some (action_of a), cursor (b ++ action_word a ∷ []) ts)
unfolding parse_action action_word is_keyword is_word_ci
parse_action-action granting b ts = simp attempt_laws
parse_action-action denying b ts = simp attempt_laws
parse_action-action revoking b ts = simp attempt_laws
parse_action-action revoking_option b ts = simp attempt_laws

module _ (g : ℕ → List Token) (h : (i : ℕ) → AllBlank (g i)) where
  pub skip_whitespace-option_for :
      (a : Action) (w : Word) (b ts : List Token)
      → skip_whitespace (cursor b (g 0 ++ option_for g a (word w ∷ ts)))
        ≡ cursor (b ++ g 0) (option_for g a (word w ∷ ts))
  unfolding is_whitespace_token option_for
  skip_whitespace-option_for granting w b ts = simp (attempt_laws, h)
  skip_whitespace-option_for denying w b ts = simp (attempt_laws, h)
  skip_whitespace-option_for revoking w b ts = simp (attempt_laws, h)
  skip_whitespace-option_for revoking_option w b ts = simp (attempt_laws, h)

  pub skip_grant_option_for-option_for :
      (a : Action) (w : Word) (b ts : List Token)
      → is_keyword "GRANT" (word w) ≡ false
      → skip_grant_option_for (action_of a) (cursor b (option_for g a (word w ∷ ts)))
        ≡ (some tt, cursor (b ++ option_for g a []) (word w ∷ ts))
  unfolding skip_grant_option_for option_for is_keyword is_word_ci is_whitespace_token
  skip_grant_option_for-option_for granting w b ts e = simp (attempt_laws, append-nil)
  skip_grant_option_for-option_for denying w b ts e = simp (attempt_laws, append-nil)
  skip_grant_option_for-option_for revoking w b ts e = simp (attempt_laws, e, append-nil)
  skip_grant_option_for-option_for revoking_option w b ts e = simp (attempt_laws, h, append-nil)

pub action_solid : (a : Action) → is_whitespace_token (action_word a) ≡ false
unfolding is_whitespace_token action_word
action_solid granting = refl
action_solid denying = refl
action_solid revoking = refl
action_solid revoking_option = refl

pub option_for-append :
    (g : ℕ → List Token) (a : Action) (us ts : List Token)
    → option_for g a us ++ ts ≡ option_for g a (us ++ ts)
unfolding option_for
option_for-append g granting us ts = refl
option_for-append g denying us ts = refl
option_for-append g revoking us ts = refl
option_for-append g revoking_option us ts = simp append_assoc
