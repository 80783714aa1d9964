-- ===== src/Xml.antt =====
-- src/dacpac/model_xml/xml_helpers.rs: the escaping of attribute values, and the functions that write
-- the elements of model.xml as events. The writer of the events, quick_xml's, is a parameter.
pub mod Escape
pub mod LineEndings
pub mod Tree
use rust_sqlpackage.Prelude.{
  ℕ, zero, suc, ◌+◌, ◌-◌, ◌*◌, ◌^◌, ◌/◌, ◌%◌, ◌≤◌, ◌<◌, min, String, ◌≡◌, refl, sym, ap, ◌∙◌, ◌≢◌,
  ◌↔◌, ◌⊎◌, inl, inr, Bool, true, false, not, ◌&&◌, ◌||◌, Option, none, some, List, [], ◌∷◌, ◌++◌,
  map, append-nil, append_assoc, arith, ltb, leb, ◌==◌, if◌then◌else◌, ltb→lt, lt→ltb, leb→le,
  ==_iff, tests, Bool-cases, Option-cases, length, get_elem?, head?, is_nil, take, drop, take_while,
  drop_while, length-append, take-append-drop, length-take, length-drop, take-take, get_elem?_past,
  take_all, get_elem?-append, drop-append, take-append, take_while-append-drop_while, Text, codes,
  to_ascii_lowercase, to_ascii_uppercase, eq_ignore_ascii_case, is_whitespace, trim_matches, trim,
  ℤ, pos, negsuc, parse_i64, parse_u64, neg_i64,
}
use rust_sqlpackage.Util.{any}

pub data AttributeValue : Type 0 where
  escaped : Text → AttributeValue
  raw : Text → AttributeValue

abbrev pub Attribute : Type 0
Attribute = String × AttributeValue

-- quick_xml's events, as far as the file uses them.
pub data Event : Type 0 where
  start : String → List Attribute → Event
  empty : String → List Attribute → Event
  cdata : Text → Event
  end : String → Event

-- quick_xml's writer: `write_event` fails when the sink does.
pub record Writer (W : Type 0) : Type 0 where
  pub write_event : W → Event → Option W

-- A part of the output: the writer behind it, if no event failed.
abbrev pub Write : Type 0 → Type 0
Write W = W → Option W

abbrev pub done : {W : Type 0} → Write W
done w = some w

infixr 1 ◌>>◌
abbrev pub ◌>>◌ : {W : Type 0} → Write W → Write W → Write W
(f >> g) w = elim (f w) [ none ↦ none | some v ↦ g v ]

abbrev pub name_attribute : Text → List Attribute
name_attribute name = ("Name", escaped name) ∷ []

abbrev pub builtin_schemas : List Text
builtin_schemas =
    codes "dbo"
    ∷ codes "guest"
    ∷ codes "INFORMATION_SCHEMA"
    ∷ codes "sys"
    ∷ codes "db_owner"
    ∷ codes "db_accessadmin"
    ∷ codes "db_securityadmin"
    ∷ codes "db_ddladmin"
    ∷ codes "db_backupoperator"
    ∷ codes "db_datareader"
    ∷ codes "db_datawriter"
    ∷ codes "db_denydatareader"
    ∷ codes "db_denydatawriter"
    ∷ []

unfoldable pub is_builtin_schema : Text → Bool
unfolding any
is_builtin_schema schema = any (λ s. eq_ignore_ascii_case s schema) builtin_schemas

-- `str::replace("\r\n", "\n")`
unfoldable pub normalize_script_content : Text → Text
normalize_script_content [] = []
normalize_script_content (c ∷ []) = c ∷ []
normalize_script_content (c ∷ d ∷ cs) =
    let behind = normalize_script_content cs in
    let next = normalize_script_content (d ∷ cs) in
    if c == 13 && d == 10 then 10 ∷ behind else c ∷ next

-- `str::replace` of one character
unfoldable pub replace : ℕ → Text → Text → Text
replace c by [] = []
replace c by (x ∷ xs) = (if x == c then by else x ∷ []) ++ replace c by xs

unfoldable pub escape_newlines_for_attr : Text → Text
escape_newlines_for_attr s =
    let escaped = replace b'"' (codes "&quot;") (
      replace b'>' (codes "&gt;") (replace b'<' (codes "&lt;") (replace b'&' (codes "&amp;") s))) in
    replace 10 (codes "&#xA;") (replace 13 (codes "&#xD;") escaped)

module _ {W : Type 0} (writer : Writer W) where
  -- `writer.write_event(event)?`
  abbrev pub write : Event → Write W
  write e w = writer.write_event w e

  unfoldable pub write_property : Text → Text → Write W
  write_property name value = do
    write (empty "Property" (("Name", escaped name) ∷ ("Value", escaped value) ∷ []))
    done

  unfoldable pub write_property_raw : Text → Text → Write W
  write_property_raw name raw_value = do
    write (empty "Property" (("Name", escaped name) ∷ ("Value", raw raw_value) ∷ []))
    done

  unfoldable pub write_script_property : Text → Text → Write W
  write_script_property name script = do
    write (start "Property" (name_attribute name))
    write (start "Value" [])
    write (cdata (normalize_script_content script))
    write (end "Value")
    write (end "Property")
    done

  -- The loop of `write_relationship`.
  unfoldable pub write_entries : List Text → Write W
  write_entries [] = done
  write_entries (r ∷ rs) = do
    write (start "Entry" [])
    write (empty "References" (name_attribute r))
    write (end "Entry")
    write_entries rs

  unfoldable pub write_relationship : Text → List Text → Write W
  write_relationship name references = do
    write (start "Relationship" (name_attribute name))
    write_entries references
    write (end "Relationship")
    done

  unfoldable pub write_builtin_type_relationship : Text → Text → Write W
  write_builtin_type_relationship name type_ref = do
    write (start "Relationship" (name_attribute name))
    write (start "Entry" [])
    write (
        empty "References"
          (("ExternalSource", escaped (codes "BuiltIns")) ∷ ("Name", escaped type_ref) ∷ []))
    write (end "Entry")
    write (end "Relationship")
    done

  unfoldable pub write_schema_relationship : Text → Write W
  write_schema_relationship schema =
      let schema_ref = codes "[" ++ schema ++ codes "]" in
      let refs =
        if is_builtin_schema schema
        then empty "References"
            (("ExternalSource", escaped (codes "BuiltIns")) ∷ ("Name", escaped schema_ref) ∷ [])
        else empty "References" (name_attribute schema_ref) in
      do
        write (start "Relationship" (name_attribute (codes "Schema")))
        write (start "Entry" [])
        write refs
        write (end "Entry")
        write (end "Relationship")
        done

  unfoldable pub write_type_specifier_builtin : Text → Write W
  write_type_specifier_builtin type_name = do
    write (start "Relationship" (name_attribute (codes "TypeSpecifier")))
    write (start "Entry" [])
    write (start "Element" (("Type", escaped (codes "SqlTypeSpecifier")) ∷ []))
    write (start "Relationship" (name_attribute (codes "Type")))
    write (start "Entry" [])
    write (
        empty "References"
          (("ExternalSource", escaped (codes "BuiltIns")) ∷ ("Name", escaped type_name) ∷ []))
    write (end "Entry")
    write (end "Relationship")
    write (end "Element")
    write (end "Entry")
    write (end "Relationship")
    done
