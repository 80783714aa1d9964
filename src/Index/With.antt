-- ===== src/Index/With.antt =====
-- The options behind WITH as they are written.
use rust_sqlpackage.Prelude.{
  ℕ, suc, ◌≡◌, refl, ◌∙◌, Bool, true, false, some, List, [], ◌∷◌, ◌++◌, append-nil, leb,
  if◌then◌else◌, Text, codes, parse_u64,
}
use mathlib.Core.Path.{subst}
use rust_sqlpackage.Token.{
  Token, Word, word, number, r_paren, comma, eq, discriminant, is_whitespace_token, Sqlparser,
}
use rust_sqlpackage.TokenParser.{TokenParser, is_word_ci, skip_whitespace, check_word_ci}
use rust_sqlpackage.TokenParser.Cursor.{
  cursor, AllBlank, is_at_end-cursor, check_token-cursor, check_word_ci-cursor,
}
use rust_sqlpackage.TokenParser.Gaps.{later}
use rust_sqlpackage.Storage.Partition.{upper, storage_laws}
use rust_sqlpackage.Constraint.{at_list_end}
use rust_sqlpackage.Constraint.Columns.{separator}
use rust_sqlpackage.FullText.Columns.{parse_positive_integer-number}
use rust_sqlpackage.Index.{TokenParsedIndex}
use rust_sqlpackage.Index.Options.{
  with_option, with_loop, fill_factor_option, compression_option, pad_index_option, after_option,
  skip_to_comma_or_paren,
}
use rust_sqlpackage.Index.Skip.{
  Plain, blank_r_paren, blank-Plain, stopped, skip_to_comma_or_paren-plain,
}

-- An option: FILLFACTOR with a number, DATA_COMPRESSION with a name, PAD_INDEX with ON or OFF, or
-- another word with the tokens behind it.
pub data Setting : Type 0 where
  fill_factor : Text → Bool → ℕ → Setting
  compression : Word → Setting
  pad_index : Bool → Setting
  unread : Word → List Token → Setting

abbrev pub equals_tokens : (ℕ → List Token) → Token → Token → List Token → List Token
equals_tokens g x y ts = x ∷ (g 40 ++ (eq ∷ (g 41 ++ (y ∷ (g 42 ++ ts)))))

-- The white space in front of each part is that of `g`.
unfoldable pub setting_tokens : (ℕ → List Token) → Setting → List Token → List Token
setting_tokens g (fill_factor n l v) ts = equals_tokens g (upper "FILLFACTOR") (number n l) ts
setting_tokens g (compression w) ts = equals_tokens g (upper "DATA_COMPRESSION") (word w) ts
setting_tokens g (pad_index true) ts = equals_tokens g (upper "PAD_INDEX") (upper "ON") ts
setting_tokens g (pad_index false) ts = equals_tokens g (upper "PAD_INDEX") (upper "OFF") ts
setting_tokens g (unread w us) ts = word w ∷ (us ++ ts)

unfoldable pub settings_tokens : (ℕ → List Token) → Setting → List Setting → List Token → List Token
settings_tokens g s [] ts = setting_tokens g s ts
settings_tokens g s (t ∷ ss) ts =
    setting_tokens g s (comma ∷ (g 43 ++ settings_tokens (later g) t ss ts))

-- The number is written as such, and another word is none of the names that are read; behind it stand
-- no comma and no closing parenthesis.
abbrev pub IsSetting : Setting → Type 0
IsSetting (fill_factor n l v) = parse_u64 n ≡ some v
IsSetting (compression w) = Unit
IsSetting (pad_index on) = Unit
IsSetting (unread w us) =
    (is_word_ci (codes "FILLFACTOR") (word w) ≡ false)
    × (is_word_ci (codes "DATA_COMPRESSION") (word w) ≡ false)
    × (is_word_ci (codes "PAD_INDEX") (word w) ≡ false)
    × Plain us

abbrev pub AreSettings : Setting → List Setting → Type 0
AreSettings s [] = IsSetting s
AreSettings s (t ∷ ss) = IsSetting s × AreSettings t ss

-- What an option sets: the fill factor only up to 100.
unfoldable pub apply_setting : Sqlparser → Setting → TokenParsedIndex → TokenParsedIndex
apply_setting lib (fill_factor n l v) r = if leb v 100 then record r { fill_factor = some v } else r
apply_setting lib (compression w) r = record r {
  data_compression = some (lib.to_uppercase w.value);
}
apply_setting lib (pad_index on) r = record r { is_padded = on }
apply_setting lib (unread w us) r = r

unfoldable pub apply_settings :
    Sqlparser → Setting → List Setting → TokenParsedIndex → TokenParsedIndex
apply_settings lib s [] r = apply_setting lib s r
apply_settings lib s (t ∷ ss) r = apply_settings lib t ss (apply_setting lib s r)

module _ (lib : Sqlparser) (g : ℕ → List Token) (h : (i : ℕ) → AllBlank (g i)) where
  plain : (i : ℕ) → Plain (g i)
  plain i = subst Plain (append-nil (g i)) (blank-Plain (g i) [] (h i) tt)

  unread-Plain : (w : Word) (us : List Token) → Plain us → Plain (word w ∷ us)
  unfolding discriminant
  unread-Plain w us k = (refl, refl, k)

  skip-unread :
      (w : Word) (us : List Token) (more : Bool) (b ts : List Token)
      → Plain us
      → skip_to_comma_or_paren (cursor b (setting_tokens g (unread w us) (separator more ∷ ts)))
        ≡ stopped more (b ++ setting_tokens g (unread w us) []) ts
  unfolding setting_tokens
  skip-unread w us more b ts k =
      skip_to_comma_or_paren-plain (word w ∷ us) more b ts (unread-Plain w us k) ∙ simp append-nil

  not_named :
      (name : Text) (w : Word) (us b ts : List Token)
      → is_word_ci name (word w) ≡ false
      → check_word_ci name (cursor b (setting_tokens g (unread w us) ts)) ≡ false
  unfolding setting_tokens
  not_named name w us b ts k = check_word_ci-cursor b (setting_tokens g (unread w us) ts) name ∙ k

  option-unread :
      (w : Word) (us : List Token) (more : Bool) (r : TokenParsedIndex) (b ts : List Token)
      (f : TokenParsedIndex → TokenParser → TokenParsedIndex × TokenParser)
      → IsSetting (unread w us)
      → after_option f r
          (with_option lib r (cursor b (setting_tokens g (unread w us) (separator more ∷ ts))))
        ≡ f r (stopped more (b ++ setting_tokens g (unread w us) []) ts)
  unfolding with_option
  option-unread w us more r b ts f k = rw (
    not_named (codes "FILLFACTOR") w us b (separator more ∷ ts) k.0,
    not_named (codes "DATA_COMPRESSION") w us b (separator more ∷ ts) k.1,
    not_named (codes "PAD_INDEX") w us b (separator more ∷ ts) k.2,
    skip-unread w us more b ts k.3,
  )

  option-setting :
      (s : Setting) (more : Bool) (r : TokenParsedIndex) (b ts : List Token)
      (f : TokenParsedIndex → TokenParser → TokenParsedIndex × TokenParser)
      → IsSetting s
      → after_option f r (with_option lib r (cursor b (setting_tokens g s (separator more ∷ ts))))
        ≡ f (apply_setting lib s r) (stopped more (b ++ setting_tokens g s []) ts)
  unfolding with_option setting_tokens apply_setting fill_factor_option compression_option
      pad_index_option discriminant is_whitespace_token is_word_ci
  option-setting (fill_factor n l v) more r b ts f k =
      let read = λ (c us : List Token). parse_positive_integer-number n l v c us k in
      simp (storage_laws, h, append-nil, read, skip_to_comma_or_paren-plain, plain)
  option-setting (compression w) more r b ts f k =
      simp (storage_laws, h, append-nil, skip_to_comma_or_paren-plain, plain)
  option-setting (pad_index true) more r b ts f k =
      simp (storage_laws, h, append-nil, skip_to_comma_or_paren-plain, plain)
  option-setting (pad_index false) more r b ts f k =
      simp (storage_laws, h, append-nil, skip_to_comma_or_paren-plain, plain)
  option-setting (unread w us) more r b ts f k = option-unread w us more r b ts f k

  -- A round at an option, behind white space or not.
  at_setting :
      (s : Setting) (ws : List Token) (b ts : List Token)
      → AllBlank ws
      → at_list_end (cursor b (ws ++ setting_tokens g s ts)) ≡ false
  unfolding setting_tokens discriminant
  at_setting (fill_factor n l v) [] b ts k = simp (is_at_end-cursor, check_token-cursor)
  at_setting (compression w) [] b ts k = simp (is_at_end-cursor, check_token-cursor)
  at_setting (pad_index true) [] b ts k = simp (is_at_end-cursor, check_token-cursor)
  at_setting (pad_index false) [] b ts k = simp (is_at_end-cursor, check_token-cursor)
  at_setting (unread w us) [] b ts k = simp (is_at_end-cursor, check_token-cursor)
  at_setting s (w ∷ ws) b ts k = rw (
    is_at_end-cursor b (w ∷ (ws ++ setting_tokens g s ts)),
    check_token-cursor b (w ∷ (ws ++ setting_tokens g s ts)) r_paren,
    blank_r_paren w k.0,
  )

  pub skip_whitespace-setting :
      (s : Setting) (ws : List Token) (b ts : List Token)
      → AllBlank ws
      → skip_whitespace (cursor b (ws ++ setting_tokens g s ts))
        ≡ cursor (b ++ ws) (setting_tokens g s ts)
  unfolding setting_tokens is_whitespace_token
  skip_whitespace-setting (fill_factor n l v) ws b ts k = simp (storage_laws, k)
  skip_whitespace-setting (compression w) ws b ts k = simp (storage_laws, k)
  skip_whitespace-setting (pad_index true) ws b ts k = simp (storage_laws, k)
  skip_whitespace-setting (pad_index false) ws b ts k = simp (storage_laws, k)
  skip_whitespace-setting (unread w us) ws b ts k = simp (storage_laws, k)

  pub with_loop-round :
      (f : ℕ) (s : Setting) (more : Bool) (ws : List Token) (r : TokenParsedIndex)
      (b ts : List Token)
      → AllBlank ws
      → IsSetting s
      → with_loop lib (suc f) r (cursor b (ws ++ setting_tokens g s (separator more ∷ ts)))
        ≡ with_loop lib f
            (apply_setting lib s r)
            (stopped more ((b ++ ws) ++ setting_tokens g s []) ts)
  unfolding with_loop
  with_loop-round f s more ws r b ts k v =
      rw
        (
          at_setting s ws b (separator more ∷ ts) k,
          skip_whitespace-setting s ws b (separator more ∷ ts) k,
        )
        (option-setting s more r (b ++ ws) ts (with_loop lib f) v)
