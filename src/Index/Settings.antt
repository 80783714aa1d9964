-- ===== src/Index/Settings.antt =====
-- All options behind WITH.
use rust_sqlpackage.Prelude.{
  ℕ, zero, suc, ◌≤◌, ◌<◌, ◌≡◌, refl, ◌∙◌, true, false, List, [], ◌∷◌, ◌++◌, append-nil,
  append_assoc, arith, length, length-append,
}
use rust_sqlpackage.Token.{
  Token, word, number, l_paren, r_paren, comma, eq, discriminant, Sqlparser,
}
use rust_sqlpackage.TokenParser.{skip_whitespace, remaining}
use rust_sqlpackage.TokenParser.Cursor.{
  cursor, AllBlank, remaining-cursor, is_at_end-cursor, check_token-cursor,
}
use rust_sqlpackage.TokenParser.Gaps.{later, later-AllBlank}
use rust_sqlpackage.Storage.Partition.{upper, storage_laws}
use rust_sqlpackage.Index.{TokenParsedIndex}
use rust_sqlpackage.Index.Options.{with_loop, parse_with_options}
use rust_sqlpackage.Index.With.{
  Setting, fill_factor, compression, pad_index, unread, AreSettings, apply_setting, apply_settings,
  setting_tokens, settings_tokens, skip_whitespace-setting, with_loop-round,
}

module _ (lib : Sqlparser) (g : ℕ → List Token) (h : (i : ℕ) → AllBlank (g i)) where
  with_loop-end :
      (f : ℕ) (r : TokenParsedIndex) (b ts : List Token)
      → with_loop lib f r (cursor b (r_paren ∷ ts)) ≡ (r, cursor b (r_paren ∷ ts))
  unfolding with_loop discriminant
  with_loop-end zero r b ts = refl
  with_loop-end (suc f) r b ts = simp (is_at_end-cursor, check_token-cursor)

  equals_length :
      (x y : Token) (ts : List Token)
      → length ts < length (x ∷ (g 40 ++ (eq ∷ (g 41 ++ (y ∷ (g 42 ++ ts))))))
  equals_length x y ts = omega (
    arith,
    length-append (g 40) (eq ∷ (g 41 ++ (y ∷ (g 42 ++ ts)))),
    length-append (g 41) (y ∷ (g 42 ++ ts)),
    length-append (g 42) ts,
  )

  length-setting_tokens :
      (s : Setting) (ts : List Token) → length ts < length (setting_tokens g s ts)
  unfolding setting_tokens
  length-setting_tokens (fill_factor n l v) ts = equals_length (upper "FILLFACTOR") (number n l) ts
  length-setting_tokens (compression w) ts = equals_length (upper "DATA_COMPRESSION") (word w) ts
  length-setting_tokens (pad_index true) ts = equals_length (upper "PAD_INDEX") (upper "ON") ts
  length-setting_tokens (pad_index false) ts = equals_length (upper "PAD_INDEX") (upper "OFF") ts
  length-setting_tokens (unread w us) ts = omega (arith, length-append us ts)

  setting_tokens-append :
      (s : Setting) (us ts : List Token)
      → setting_tokens g s us ++ ts ≡ setting_tokens g s (us ++ ts)
  unfolding setting_tokens
  setting_tokens-append (fill_factor n l v) us ts = simp append_assoc
  setting_tokens-append (compression w) us ts = simp append_assoc
  setting_tokens-append (pad_index true) us ts = simp append_assoc
  setting_tokens-append (pad_index false) us ts = simp append_assoc
  setting_tokens-append (unread w vs) us ts = simp append_assoc

  settings_tokens_head :
      (s : Setting) (ss : List Setting) (ts : List Token)
      → (us : List Token) × (settings_tokens g s ss ts ≡ setting_tokens g s us)
  unfolding settings_tokens
  settings_tokens_head s [] ts = (_, refl)
  settings_tokens_head s (t ∷ ss) ts = (_, refl)

with_loop-settings :
    (lib : Sqlparser) (g : ℕ → List Token) (h : (i : ℕ) → AllBlank (g i)) (f : ℕ) (s : Setting)
    (ss : List Setting) (ws : List Token) (r : TokenParsedIndex) (b ts : List Token)
    → AllBlank ws
    → AreSettings s ss
    → length (settings_tokens g s ss (r_paren ∷ ts)) ≤ f
    → with_loop lib f r (cursor b (ws ++ settings_tokens g s ss (r_paren ∷ ts)))
      ≡ (apply_settings lib s ss r, cursor ((b ++ ws) ++ settings_tokens g s ss []) (r_paren ∷ ts))
unfolding settings_tokens apply_settings
with_loop-settings lib g h zero s [] ws r b ts w v k =
    absurd (omega (arith, k, length-setting_tokens lib g h s (r_paren ∷ ts)))
with_loop-settings lib g h zero s (t ∷ ss) ws r b ts w v k = absurd (
    omega (
      arith,
      k,
      length-setting_tokens lib g h s
          (comma ∷ (g 43 ++ settings_tokens (later g) t ss (r_paren ∷ ts))),
    ))
with_loop-settings lib g h (suc f) s [] ws r b ts w v k =
    with_loop-round lib g h f s false ws r b ts w v
    ∙ with_loop-end lib g h f (apply_setting lib s r) ((b ++ ws) ++ setting_tokens g s []) ts
with_loop-settings lib g h (suc f) s (t ∷ ss) ws r b ts w v k =
    let us = settings_tokens (later g) t ss (r_paren ∷ ts) in
    with_loop-round lib g h f s true ws r b (g 43 ++ us) w v.0
    ∙ with_loop-settings lib (later g) (later-AllBlank g h) f t ss (g 43) (apply_setting lib s r) _
        ts (h 43) v.1
        (omega (
          arith,
          k,
          length-setting_tokens lib g h s (comma ∷ (g 43 ++ us)),
          length-append (g 43) us,
        ))
    ∙ simp (append_assoc, setting_tokens-append lib g h)

pub settings_tokens-append :
    (lib : Sqlparser) (g : ℕ → List Token) (h : (i : ℕ) → AllBlank (g i)) (s : Setting)
    (ss : List Setting) (us ts : List Token)
    → settings_tokens g s ss us ++ ts ≡ settings_tokens g s ss (us ++ ts)
unfolding settings_tokens
settings_tokens-append lib g h s [] us ts = setting_tokens-append lib g h s us ts
settings_tokens-append lib g h s (t ∷ ss) us ts = simp (
  setting_tokens-append lib g h,
  append_assoc,
  settings_tokens-append lib (later g) (later-AllBlank g h) t ss,
)

module _ (lib : Sqlparser) (g : ℕ → List Token) (h : (i : ℕ) → AllBlank (g i)) where
  at_settings :
      (s : Setting) (ss : List Setting) (b ts : List Token)
      → skip_whitespace (cursor b (g 39 ++ settings_tokens g s ss ts))
        ≡ cursor (b ++ g 39) (settings_tokens g s ss ts)
  at_settings s ss b ts =
      let (us, e) = settings_tokens_head lib g h s ss ts in
      rw e (skip_whitespace-setting lib g h s (g 39) b us (h 39))

  enough :
      (s : Setting) (ss : List Setting) (r : TokenParsedIndex) (b ts : List Token)
      → AreSettings s ss
      → with_loop lib
          (remaining (cursor b (settings_tokens g s ss (r_paren ∷ ts))))
          r
          (cursor b (settings_tokens g s ss (r_paren ∷ ts)))
        ≡ (apply_settings lib s ss r, cursor (b ++ settings_tokens g s ss []) (r_paren ∷ ts))
  enough s ss r b ts v =
      let us = settings_tokens g s ss (r_paren ∷ ts) in
      with_loop-settings lib g h (remaining (cursor b us)) s ss [] r b ts tt v
        (omega (arith, remaining-cursor b us))
      ∙ rw (append-nil b)

  -- Options in parentheses, with commas between them, are applied in order.
  pub parse_with_options-settings :
      (s : Setting) (ss : List Setting) (r : TokenParsedIndex) (b ts : List Token)
      → AreSettings s ss
      → parse_with_options lib r
          (cursor b (l_paren ∷ (g 39 ++ settings_tokens g s ss (r_paren ∷ ts))))
        ≡ (
          apply_settings lib s ss r,
          cursor (b ++ l_paren ∷ (g 39 ++ settings_tokens g s ss (r_paren ∷ []))) ts,
        )
  unfolding parse_with_options discriminant
  parse_with_options-settings s ss r b ts v =
      simp (storage_laws, at_settings, enough, v, settings_tokens-append lib g h)
