-- ===== src/ExtendedProperty/Calls.antt =====
-- Whole calls of sp_addextendedproperty.
use rust_sqlpackage.Prelude.{
  ℕ, zero, suc, ◌<◌, ◌≡◌, refl, ◌∙◌, inl, inr, Option, none, some, List, [], ◌∷◌, ◌++◌, append-nil,
  append_assoc, arith, if◌then◌else◌, Bool-cases, length, is_nil, Text, codes,
}
use rust_sqlpackage.Token.{Token, word, period, Sqlparser, discriminant, is_whitespace_token}
use rust_sqlpackage.TokenParser.{skip_whitespace, is_keyword, is_word_ci}
use rust_sqlpackage.TokenParser.Cursor.{cursor, AllBlank, remaining-cursor}
use rust_sqlpackage.TokenParser.Gaps.{later, later-AllBlank}
use rust_sqlpackage.Preprocess.Replace.{attempt_laws}
use rust_sqlpackage.Security.Role.Statements.{Execute, exec, execute, neither, execute_tokens}
use rust_sqlpackage.ExtendedProperty.{
  TokenParsedExtendedProperty, parse_parameters, parameters_loop, parse_extended_property,
  skip_exec_keyword, skip_schema,
}
use rust_sqlpackage.ExtendedProperty.Parameters.{
  Item, IsItem, AreItems, item_tokens, items_tokens, ending, at_ending, gap_before, store_item,
  store_all, loop-item, loop-items, length-item_tokens, item_tokens-append, round_solid,
}

-- The schema in front of the procedure's name, if any.
pub data Schema : Type 0 where
  sys dbo bare : Schema

abbrev plain : Text → Token
plain t = word (record { value = t; quote_style = none; keyword = "NoKeyword" })

abbrev pub schema_prefix : Schema → List Token → List Token → List Token
schema_prefix sys g g' = plain (codes "sys") ∷ (g ++ (period ∷ g'))
schema_prefix dbo g g' = plain (codes "dbo") ∷ (g ++ (period ∷ g'))
schema_prefix bare g g' = []

abbrev pub procedure : Token
procedure = plain (codes "sp_addextendedproperty")

-- The call, with at least one parameter or comma behind the procedure's name; the white space in front
-- of each part is that of `g`.
abbrev pub property_call :
    (ℕ → List Token) → Execute → Schema → Item → List Item → List Token → List Token
property_call g e s i is ts =
    g 3
    ++ execute_tokens e (g 4) (
        schema_prefix s (g 5) (g 6)
        ++ (procedure ∷ (g 7 ++ item_tokens g i (items_tokens (later g) is ts))))

-- The property before its parameters: the schema dbo, and no more.
abbrev pub of_dbo : TokenParsedExtendedProperty
of_dbo = record {
  property_name = [];
  property_value = [];
  level0name = codes "dbo";
  level1type = none;
  level1name = none;
  level2type = none;
  level2name = none;
}

-- A property without a name is refused.
abbrev pub if_named : TokenParsedExtendedProperty → Option TokenParsedExtendedProperty
if_named r = if is_nil r.property_name then none else some r

module _ (lib : Sqlparser) (g : ℕ → List Token) (h : (i : ℕ) → AllBlank (g i)) where
  parameters-items :
      (e : Option (List Token)) (i : Item) (is : List Item) (b : List Token)
      → IsItem lib i
      → AreItems lib is
      → parse_parameters lib of_dbo
          (cursor b (item_tokens g i (items_tokens (later g) is (ending (g 8) e))))
        ≡ (
          store_all is (store_item i of_dbo),
          cursor
              (b ++ item_tokens g i (items_tokens (later g) is (gap_before (g 8) e)))
              (at_ending e),
        )
  unfolding parse_parameters
  parameters-items e i is b k ks = more_fuel _ (
      omega (
        arith,
        remaining-cursor b (item_tokens g i (items_tokens (later g) is (ending (g 8) e))),
        length-item_tokens g h lib i (items_tokens (later g) is (ending (g 8) e)),
      ))
    where
      more_fuel :
          (f : ℕ)
          → length (items_tokens (later g) is (ending (g 8) e)) < f
          → parameters_loop lib f of_dbo
              (cursor b (item_tokens g i (items_tokens (later g) is (ending (g 8) e))))
            ≡ (
              store_all is (store_item i of_dbo),
              cursor
                  (b ++ item_tokens g i (items_tokens (later g) is (gap_before (g 8) e)))
                  (at_ending e),
            )
      more_fuel zero l = elim l [ ]
      more_fuel (suc f) l =
          loop-item g h lib f i of_dbo b [] (items_tokens (later g) is (ending (g 8) e)) tt k
          ∙ loop-items lib (g 8) (h 8) e (later g) (later-AllBlank g h) is f (store_item i of_dbo)
              (b ++ item_tokens g i []) ks (omega arith)
          ∙ simp (append_assoc, item_tokens-append g h lib)

  schema_prefix_head :
      (s : Schema) (ts : List Token)
      → (n : Text) × (us : List Token) × (schema_prefix s (g 5) (g 6) ++ (procedure ∷ ts)
          ≡ plain n ∷ us)
  schema_prefix_head sys ts = (codes "sys", _, refl)
  schema_prefix_head dbo ts = (codes "dbo", _, refl)
  schema_prefix_head bare ts = (codes "sp_addextendedproperty", _, refl)

  -- Behind the white space, EXEC or EXECUTE, and what stands before the procedure's name.
  skip_exec_keyword-plain :
      (x : Execute) (n : Text) (b ts : List Token)
      → skip_exec_keyword
          (skip_whitespace (cursor b (g 3 ++ execute_tokens x (g 4) (plain n ∷ ts))))
        ≡ (some tt, cursor (b ++ (g 3 ++ execute_tokens x (g 4) [])) (plain n ∷ ts))
  unfolding skip_exec_keyword is_whitespace_token is_keyword
  skip_exec_keyword-plain exec n b ts = simp (attempt_laws, h, append-nil)
  skip_exec_keyword-plain execute n b ts = simp (attempt_laws, h, append-nil)
  skip_exec_keyword-plain neither n b ts = simp (attempt_laws, h, append-nil)

  skip_exec_keyword-execute :
      (x : Execute) (s : Schema) (b ts : List Token)
      → skip_exec_keyword (
          skip_whitespace (
            cursor b
              (g 3 ++ execute_tokens x (g 4) (schema_prefix s (g 5) (g 6) ++ (procedure ∷ ts)))))
        ≡ (
          some tt,
          cursor
              (b ++ (g 3 ++ execute_tokens x (g 4) []))
              (schema_prefix s (g 5) (g 6) ++ (procedure ∷ ts)),
        )
  skip_exec_keyword-execute x s b ts =
      let (n, us, e) = schema_prefix_head s ts in rw e (skip_exec_keyword-plain x n b us)

  skip_schema-prefix :
      (s : Schema) (b ts : List Token)
      → skip_schema (cursor b (schema_prefix s (g 5) (g 6) ++ (procedure ∷ ts)))
        ≡ (some tt, cursor (b ++ schema_prefix s (g 5) (g 6)) (procedure ∷ ts))
  unfolding skip_schema is_whitespace_token is_word_ci discriminant
  skip_schema-prefix sys b ts = simp (attempt_laws, h)
  skip_schema-prefix dbo b ts = simp (attempt_laws, h)
  skip_schema-prefix bare b ts = simp (attempt_laws, append-nil)

  execute_tokens-append :
      (x : Execute) (us vs ts : List Token)
      → execute_tokens x us vs ++ ts ≡ execute_tokens x us (vs ++ ts)
  execute_tokens-append exec us vs ts = simp append_assoc
  execute_tokens-append execute us vs ts = simp append_assoc
  execute_tokens-append neither us vs ts = refl

  -- A call of sp_addextendedproperty, with any white space at each place, with EXEC, EXECUTE
  -- or neither and with the schema sys or dbo or without, of one or more parameters and commas
  -- in any order, which a semicolon or nothing follows, gives the property that its parameters
  -- give one after the other, from one with the schema dbo and no more: each sets the field of
  -- its name to its value; NULL gives no type or name of the levels 1 and 2, an empty name or
  -- value of the property, and leaves the schema as it is; LEVEL0TYPE and other names set
  -- nothing. Without a name there is no property. The parser stops in front of the semicolon
  -- or at the end.
  pub parse_extended_property-property_call :
      (x : Execute) (s : Schema) (e : Option (List Token)) (i : Item) (is : List Item)
      (b : List Token)
      → IsItem lib i
      → AreItems lib is
      → parse_extended_property lib (cursor b (property_call g x s i is (ending (g 8) e))) ≡ (
        if_named (store_all is (store_item i of_dbo)),
        cursor (b ++ property_call g x s i is (gap_before (g 8) e)) (at_ending e),
      )
  unfolding parse_extended_property is_word_ci
  parse_extended_property-property_call x s e i is b k ks =
      elim (Bool-cases (is_nil (store_all is (store_item i of_dbo)).property_name)) [
        | inl z ↦ simp (
          attempt_laws,
          h,
          skip_exec_keyword-execute x s,
          skip_schema-prefix s,
          round_solid g h lib,
          parameters-items e i is,
          k,
          ks,
          z,
          execute_tokens-append,
        )
        | inr z ↦ simp (
          attempt_laws,
          h,
          skip_exec_keyword-execute x s,
          skip_schema-prefix s,
          round_solid g h lib,
          parameters-items e i is,
          k,
          ks,
          z,
          execute_tokens-append,
        )
      ]
