-- ===== src/Synonym/Target.antt =====
-- The target of a synonym: names with dots between them.
use rust_sqlpackage.Prelude.{
  ℕ, zero, suc, ◌+◌, ◌≤◌, ◌≡◌, ◌∙◌, Bool, false, some, List, [], ◌∷◌, ◌++◌, append-nil,
  append_assoc, arith, length, length-append, Text,
}
use rust_sqlpackage.Token.{Token, Word, word, period, is_whitespace_token, discriminant}
use rust_sqlpackage.TokenParser.{same_kind, remaining, parse_laws}
use rust_sqlpackage.TokenParser.Cursor.{
  cursor, head_is, AllBlank, blanks, skip_blank, skip_whitespace-cursor, check_token-cursor,
  remaining-cursor, cursor_laws,
}
use rust_sqlpackage.Preprocess.Replace.{attempt_laws}
use rust_sqlpackage.Synonym.{multi_part_loop, parse_multi_part_name}

-- `.name` with white space around the dot
pub record Part : Type 0 where
  pub before : List Token
  pub after : List Token
  pub name : Word

abbrev pub part_tokens : Part → List Token → List Token
part_tokens d ts = d.before ++ (period ∷ (d.after ++ (word d.name ∷ ts)))

unfoldable pub dotted : List Part → List Token
dotted [] = []
dotted (d ∷ ds) = part_tokens d (dotted ds)

unfoldable pub values : List Part → List Text
values [] = []
values (d ∷ ds) = d.name.value ∷ values ds

abbrev pub AreSpaced : List Part → Type 0
AreSpaced [] = Unit
AreSpaced (d ∷ ds) = AllBlank d.before × AllBlank d.after × AreSpaced ds

abbrev pub is_period : Token → Bool
is_period = same_kind period

part_tokens-append :
    (d : Part) (us ts : List Token) → part_tokens d us ++ ts ≡ part_tokens d (us ++ ts)
part_tokens-append d us ts = simp append_assoc

part_tokens_longer : (d : Part) (us : List Token) → suc (length us) ≤ length (part_tokens d us)
part_tokens_longer d us = omega (
  arith,
  length-append d.before (period ∷ (d.after ++ (word d.name ∷ us))),
  length-append d.after (word d.name ∷ us),
)

too_short : (d : Part) (us : List Token) → length (part_tokens d us) ≤ 0 → ⊥
too_short d us h = omega (arith, part_tokens_longer d us)

-- A name is no white space, and neither is a dot.
multi_part_loop-end :
    (f : ℕ) (parts : List Text) (b ts : List Token)
    → head_is is_period (skip_blank ts) ≡ false
    → length ts ≤ f
    → multi_part_loop f parts (cursor b ts) ≡ (some parts, cursor (b ++ blanks ts) (skip_blank ts))
unfolding multi_part_loop
multi_part_loop-end zero parts b [] e h = simp append-nil
multi_part_loop-end zero parts b (t ∷ ts) e h = elim h [ ]
multi_part_loop-end (suc f) parts b ts e h =
    rw (skip_whitespace-cursor b ts, check_token-cursor (b ++ blanks ts) (skip_blank ts) period, e)

multi_part_loop-part :
    (f : ℕ) (parts : List Text) (d : Part) (b ts : List Token)
    → AllBlank d.before
    → AllBlank d.after
    → multi_part_loop (suc f) parts (cursor b (part_tokens d ts))
      ≡ multi_part_loop f (parts ++ d.name.value ∷ []) (cursor (b ++ part_tokens d []) ts)
unfolding multi_part_loop discriminant is_whitespace_token
multi_part_loop-part f parts d b ts hb ha = simp attempt_laws

multi_part_loop-dotted :
    (f : ℕ) (parts : List Text) (ds : List Part) (b ts : List Token)
    → AreSpaced ds
    → head_is is_period (skip_blank ts) ≡ false
    → length (dotted ds) + length ts ≤ f
    → multi_part_loop f parts (cursor b (dotted ds ++ ts))
      ≡ (some (parts ++ values ds), cursor (b ++ (dotted ds ++ blanks ts)) (skip_blank ts))
unfolding dotted values
multi_part_loop-dotted f parts [] b ts sp e h =
    multi_part_loop-end f parts b ts e (omega arith) ∙ simp append-nil
multi_part_loop-dotted zero parts (d ∷ ds) b ts sp e h =
    elim (too_short d (dotted ds) (omega arith)) [ ]
multi_part_loop-dotted (suc f) parts (d ∷ ds) b ts (hb, ha, sp) e h =
    rw (part_tokens-append d (dotted ds) ts) (
      multi_part_loop-part f parts d b (dotted ds ++ ts) hb ha
      ∙ multi_part_loop-dotted f (parts ++ d.name.value ∷ []) ds (b ++ part_tokens d []) ts sp e
          (omega (arith, part_tokens_longer d (dotted ds)))
      ∙ simp append_assoc)

module _ (w : Word) (ds : List Part) (b ts : List Token) where
  -- A name, then any number of parts with a dot before each and any white space around it, where no
  -- dot follows: all the names are read, in order, and the white space behind the last one is skipped.
  pub parse_multi_part_name-dotted :
      AreSpaced ds
      → head_is is_period (skip_blank ts) ≡ false
      → parse_multi_part_name (cursor b (word w ∷ (dotted ds ++ ts))) ≡ (
        some (w.value ∷ values ds),
        cursor (b ++ word w ∷ (dotted ds ++ blanks ts)) (skip_blank ts),
      )
  unfolding parse_multi_part_name
  parse_multi_part_name-dotted sp e =
      let us = dotted ds ++ ts in
      let run =
        multi_part_loop-dotted (remaining (cursor (b ++ word w ∷ []) us)) (w.value ∷ []) ds
          (b ++ word w ∷ []) ts sp e
          (omega (arith, remaining-cursor (b ++ word w ∷ []) us, length-append (dotted ds) ts)) in
      simp (parse_laws, cursor_laws, run, append_assoc)
