-- ===== src/Preprocess/Extract.antt =====
-- The attempt at `CONSTRAINT name DEFAULT (expression) FOR column`.
use rust_sqlpackage.Prelude.{
  ℕ, zero, suc, ◌+◌, ◌-◌, ◌≤◌, ◌≡◌, refl, ap, ◌∙◌, Bool, true, false, some, List, [], ◌∷◌, ◌++◌,
  append-nil, append_assoc, arith, ltb, ◌==◌, if◌then◌else◌, length, is_nil, Text, codes,
}
use rust_sqlpackage.Identifier.Format.{format_token_sql_cow}
use rust_sqlpackage.Token.{
  Token, Word, word, l_paren, r_paren, comma, is_whitespace_token, discriminant,
}
use rust_sqlpackage.TokenParser.{TokenParser, remaining, is_keyword}
use rust_sqlpackage.TokenParser.Cursor.{
  cursor, AllBlank, advance-cursor, check_token-cursor, current_token-cursor, is_at_end-cursor,
  remaining-cursor,
}
use rust_sqlpackage.TokenParser.Groups.Balanced.{
  Balanced, nil, plain, group, opens, closes, group_of,
}
use rust_sqlpackage.TokenParser.Groups.Sound.{l_paren_of_opens, r_paren_of_closes}
use rust_sqlpackage.Preprocess.Steps.{
  expression_loop, parse_parenthesized_expression, depth_step, expression_text, default_for_from,
  try_parse_default_for, is_string_token,
}
use rust_sqlpackage.Preprocess.Replace.{cow_text, attempt_laws}

pub cow_text-append : (xs ys : List Token) → cow_text (xs ++ ys) ≡ cow_text xs ++ cow_text ys
unfolding cow_text
cow_text-append [] ys = refl
cow_text-append (x ∷ xs) ys = simp (cow_text-append xs ys, append_assoc)

-- The loop over the tokens themselves.
expression_at : ℕ → Text → List Token → List Token → ℕ × Text × TokenParser
expression_at d acc b [] = (d, acc, cursor b [])
expression_at d acc b (t ∷ ts) =
    let rest = expression_at (depth_step d t) (acc ++ expression_text d t) (b ++ t ∷ []) ts in
    if d == 0 then (d, acc, cursor b (t ∷ ts)) else rest

expression_loop-at :
    (f d : ℕ) (acc : Text) (b ts : List Token)
    → length ts ≤ f
    → expression_loop f d acc (cursor b ts) ≡ expression_at d acc b ts
unfolding expression_loop expression_at
expression_loop-at zero d acc b [] h = refl
expression_loop-at zero d acc b (t ∷ ts) h = elim h [ ]
expression_loop-at (suc f) d acc b [] h = rw (is_at_end-cursor b [])
expression_loop-at (suc f) d acc b (t ∷ ts) h =
    let ih =
      expression_loop-at f (depth_step d t) (acc ++ expression_text d t) (b ++ t ∷ []) ts
        (omega arith) in
    rw (is_at_end-cursor b (t ∷ ts), current_token-cursor b (t ∷ ts), advance-cursor b t ts)
      (ap (λ r. if d == 0 then (d, acc, cursor b (t ∷ ts)) else r) ih)

suc-ne-zero : (n : ℕ) → (suc n == 0) ≡ false
suc-ne-zero n = ground arith

at_zero : (acc : Text) (b ts : List Token) → expression_at 0 acc b ts ≡ (0, acc, cursor b ts)
unfolding expression_at
at_zero acc b [] = refl
at_zero acc b (t ∷ ts) = refl

at_open :
    (d : ℕ) (acc : Text) (b ts : List Token)
    → expression_at (suc d) acc b (l_paren ∷ ts)
      ≡ expression_at (suc (suc d)) (acc ++ format_token_sql_cow l_paren) (b ++ l_paren ∷ []) ts
unfolding expression_at
at_open d acc b ts =
    let e : suc d + 1 ≡ suc (suc d) = omega arith in
    rw (suc-ne-zero d)
      (ap (λ n. expression_at n (acc ++ format_token_sql_cow l_paren) (b ++ l_paren ∷ []) ts) e)

at_close :
    (d : ℕ) (acc : Text) (b ts : List Token)
    → expression_at (suc (suc d)) acc b (r_paren ∷ ts)
      ≡ expression_at (suc d) (acc ++ format_token_sql_cow r_paren) (b ++ r_paren ∷ []) ts
unfolding expression_at
at_close d acc b ts =
    let e : suc (suc d) - 1 ≡ suc d = omega arith in
    let inner : ltb 0 (suc d) ≡ true = ground arith in rw (suc-ne-zero (suc d), e, inner)

at_last :
    (acc : Text) (b ts : List Token)
    → expression_at 1 acc b (r_paren ∷ ts) ≡ (0, acc, cursor (b ++ r_paren ∷ []) ts)
unfolding expression_at
at_last acc b ts = rw append-nil (at_zero acc (b ++ r_paren ∷ []) ts)

at_plain :
    (t : Token) (d : ℕ) (acc : Text) (b ts : List Token)
    → opens t ≡ false
    → closes t ≡ false
    → expression_at (suc d) acc b (t ∷ ts)
      ≡ expression_at (suc d) (acc ++ format_token_sql_cow t) (b ++ t ∷ []) ts
unfolding expression_at discriminant
at_plain l_paren d acc b ts ho hc = ground arith
at_plain r_paren d acc b ts ho hc = ground arith
at_plain _ d acc b ts ho hc = rw (suc-ne-zero d)

at-Balanced :
    {inside : List Token}
    → Balanced inside
    → (d : ℕ) (acc : Text) (b ts : List Token)
    → expression_at (suc d) acc b (inside ++ ts)
      ≡ expression_at (suc d) (acc ++ cow_text inside) (b ++ inside) ts
unfolding cow_text
at-Balanced nil d acc b ts = simp append-nil
at-Balanced (plain {t} {ts = us} ho hc rest) d acc b ts =
    at_plain t d acc b _ ho hc ∙ at-Balanced rest d _ (b ++ t ∷ []) ts ∙ simp append_assoc
at-Balanced (group o c inside us ho hc hi rest) d acc b ts =
    rw (l_paren_of_opens o ho, r_paren_of_closes c hc)
      (simp append_assoc (
        at_open d acc b _
        ∙ at-Balanced hi (suc d) _ _ (r_paren ∷ (us ++ ts))
        ∙ at_close d _ _ (us ++ ts)
        ∙ at-Balanced rest d _ _ ts
        ∙ simp (append_assoc, cow_text-append)))

-- A balanced group in parentheses is read whole: its text is that of the tokens inside.
pub parse_parenthesized_expression-Balanced :
    {inside : List Token}
    → Balanced inside
    → (b rest : List Token)
    → parse_parenthesized_expression (cursor b (l_paren ∷ (inside ++ (r_paren ∷ rest))))
      ≡ (some (cow_text inside), cursor (b ++ group_of inside) rest)
unfolding parse_parenthesized_expression discriminant
parse_parenthesized_expression-Balanced {inside} bal b rest =
    let ts = inside ++ (r_paren ∷ rest) in
    let whole =
      expression_loop-at (remaining (cursor (b ++ l_paren ∷ []) ts)) 1 [] (b ++ l_paren ∷ []) ts
        (omega (arith, remaining-cursor (b ++ l_paren ∷ []) ts))
      ∙ at-Balanced bal 0 [] (b ++ l_paren ∷ []) (r_paren ∷ rest)
      ∙ at_last (cow_text inside) ((b ++ l_paren ∷ []) ++ inside) rest in
    rw (check_token-cursor b (l_paren ∷ ts) l_paren)
      (rw (advance-cursor b l_paren ts) (rw whole (simp append_assoc)))

-- The white space between the parts of a constraint.
pub record Gaps : Type 0 where
  pub after_comma : List Token
  pub after_constraint : List Token
  pub after_name : List Token
  pub after_default : List Token
  pub after_expression : List Token
  pub after_for : List Token

abbrev pub AreBlank : Gaps → Type 0
AreBlank g =
    AllBlank g.after_comma
    × AllBlank g.after_constraint
    × AllBlank g.after_name
    × AllBlank g.after_default
    × AllBlank g.after_expression
    × AllBlank g.after_for

-- The comma in front, if there is one, with the white space behind it.
abbrev leading : Bool → Gaps → List Token → List Token
leading true g ts = comma ∷ (g.after_comma ++ ts)
leading false g ts = ts

-- `, CONSTRAINT name DEFAULT ( inside ) FOR column` with the comma or without, the words `c`, `d` and `f`
-- being the keywords.
abbrev pub default_for : Bool → Gaps → Word → Word → Word → Word → Word → List Token → List Token
default_for with_comma g c name d f column inside = leading with_comma g (
    word c
    ∷ (g.after_constraint
        ++ (word name
            ∷ (g.after_name
                ++ (word d
                    ∷ (g.after_default
                        ++ (l_paren
                            ∷ (inside
                                ++ (r_paren
                                    ∷ (g.after_expression
                                        ++ (word f ∷ (g.after_for ++ (word column ∷ [])))))))))))))

module _ (g : Gaps) (c name d f column : Word) {inside : List Token} (b rest : List Token) where
  -- At CONSTRAINT name DEFAULT ( expression ) FOR column, with a comma in front or without, in
  -- any white space, with balanced tokens between the parentheses and names that are not
  -- empty, the attempt extracts the name, the column and the expression with its parentheses,
  -- and stops right behind the column.
  pub try_parse_default_for-default_for :
      (with_comma : Bool)
      → Balanced inside
      → AreBlank g
      → is_keyword "CONSTRAINT" (word c) ≡ true
      → is_keyword "DEFAULT" (word d) ≡ true
      → is_keyword "FOR" (word f) ≡ true
      → is_nil name.value ≡ false
      → is_nil column.value ≡ false
      → try_parse_default_for (cursor b (default_for with_comma g c name d f column inside ++ rest))
        ≡ (
          some (record {
            name = name.value;
            column = column.value;
            expression = codes "(" ++ (cow_text inside ++ codes ")");
          }),
          cursor (b ++ default_for with_comma g c name d f column inside) rest,
        )
  unfolding try_parse_default_for default_for_from is_string_token is_whitespace_token discriminant
  try_parse_default_for-default_for true bal (w₀, w₁, w₂, w₃, w₄, w₅) hc hd hf hn hk =
      simp (attempt_laws, hc, hd, hf, hn, hk, parse_parenthesized_expression-Balanced bal)
  try_parse_default_for-default_for false bal (w₀, w₁, w₂, w₃, w₄, w₅) hc hd hf hn hk =
      simp (attempt_laws, hc, hd, hf, hn, hk, parse_parenthesized_expression-Balanced bal)
