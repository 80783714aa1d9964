-- ===== src/Storage/Partition.antt =====
-- Whole CREATE PARTITION FUNCTION statements.
use rust_sqlpackage.Prelude.{
  ℕ, ◌≡◌, ◌∙◌, Bool, true, false, none, List, [], ◌∷◌, ◌++◌, append-nil, codes,
}
use rust_sqlpackage.Token.{Token, Word, word, l_paren, r_paren, Keyword, is_whitespace_token}
use rust_sqlpackage.TokenParser.{TokenParser, skip_whitespace}
use rust_sqlpackage.TokenParser.Cursor.{cursor, skip_whitespace-cursor}
use rust_sqlpackage.Preprocess.Replace.{attempt_laws}

abbrev pub upper : Keyword → Token
upper k = word (record { value = codes k; quote_style = none; keyword = k })

-- The side of the boundaries, as written.
pub data Side : Type 0 where
  left right unsaid : Side

abbrev pub side_tokens : Side → List Token → List Token → List Token
side_tokens left g ts = g ++ (upper "LEFT" ∷ ts)
side_tokens right g ts = g ++ (upper "RIGHT" ∷ ts)
side_tokens unsaid g ts = ts

abbrev pub is_right : Side → Bool
is_right left = false
is_right right = true
is_right unsaid = true

pub skip_whitespace-solid :
    (t : Token) (b ts : List Token)
    → is_whitespace_token t ≡ false
    → skip_whitespace (cursor b (t ∷ ts)) ≡ cursor b (t ∷ ts)
skip_whitespace-solid t b ts h = skip_whitespace-cursor b (t ∷ ts) ∙ rw h (simp append-nil)

pub ruleset storage_laws = (attempt_laws, skip_whitespace-solid)

-- Where the parser stands behind the side: if none is written, the attempts have taken the white
-- space that follows.
unfoldable side_end : Side → List Token → List Token → List Token → List Token → TokenParser
side_end unsaid g g' b ts = cursor (b ++ g') ts
side_end s g g' b ts = cursor (b ++ side_tokens s g []) (g' ++ ts)

-- `CREATE PARTITION FUNCTION name (type) AS RANGE side FOR VALUES (values)`, with the white space
-- `g i` in front of each part.
abbrev pub partition_tokens :
    (ℕ → List Token) → Word → Word → Side → List Token → List Token → List Token
partition_tokens g name type side inside ts =
    g 0
    ++ (upper "CREATE"
        ∷ (g 1
            ++ (upper "PARTITION"
                ∷ (g 2
                    ++ (upper "FUNCTION"
                        ∷ (g 3
                            ++ (word name
                                ∷ (g 4
                                    ++ (l_paren
                                        ∷ (g 5
                                            ++ (word type
                                                ∷ (g 6
                                                    ++ (r_paren
                                                        ∷ (g 7
                                                            ++ (upper "AS"
                                                            ∷ (g 8
                                                            ++ (upper "RANGE"
                                                            ∷ side_tokens side (g 9) (
                                                            g 10
                                                            ++ (upper "FOR"
                                                            ∷ (g 11
                                                            ++ (upper "VALUES"
                                                            ∷ (g 12
                                                            ++ (l_paren
                                                            ∷ (inside
                                                            ++ (r_paren
                                                            ∷ ts)))))))))))))))))))))))))
