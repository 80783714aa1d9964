-- ===== src/Xml/Tree.antt =====
-- The elements that the writing functions stand for, and their events one after the other.
use rust_sqlpackage.Prelude.{
  String, ◌≡◌, refl, sym, ◌∙◌, inl, inr, Option, none, some, List, [], ◌∷◌, ◌++◌, if◌then◌else◌,
  Bool-cases, Text, codes,
}
use rust_sqlpackage.Xml.{
  escaped, raw, Attribute, Event, start, empty, cdata, end, Writer, Write, done, ◌>>◌, write,
  name_attribute, is_builtin_schema, normalize_script_content, write_property, write_property_raw,
  write_script_property, write_entries, write_relationship, write_builtin_type_relationship,
  write_schema_relationship, write_type_specifier_builtin,
}

mutual
  pub data Element : Type 0 where
    leaf : String → List Attribute → Element
    text : Text → Element
    node : String → List Attribute → Elements → Element

  pub data Elements : Type 0 where
    nil : Elements
    cons : Element → Elements → Elements

-- The events of an element come before those of what follows it.
unfoldable mutual
  pub events : Element → List Event → List Event
  events (leaf name attributes) rest = empty name attributes ∷ rest
  events (text content) rest = cdata content ∷ rest
  events (node name attributes children) rest =
      start name attributes ∷ events_all children (end name ∷ rest)

  pub events_all : Elements → List Event → List Event
  events_all nil rest = rest
  events_all (cons e es) rest = events e (events_all es rest)

abbrev pub only : Element → Elements
only e = cons e nil

abbrev pub relationship : Text → Elements → Element
relationship name entries = node "Relationship" (name_attribute name) entries

abbrev pub entry : Element → Element
entry e = node "Entry" [] (only e)

abbrev pub reference : Text → Element
reference name = leaf "References" (name_attribute name)

abbrev pub builtin_reference : Text → Element
builtin_reference name =
    leaf "References" (("ExternalSource", escaped (codes "BuiltIns")) ∷ ("Name", escaped name) ∷ [])

abbrev pub entries : List Text → Elements
entries [] = nil
entries (r ∷ rs) = cons (entry (reference r)) (entries rs)

-- A call of one of the writing functions.
pub data Call : Type 0 where
  property : Text → Text → Call
  property_raw : Text → Text → Call
  script_property : Text → Text → Call
  references : Text → List Text → Call
  builtin_type : Text → Text → Call
  schema : Text → Call
  type_specifier : Text → Call

-- The element that a call is to write.
unfoldable pub element_of : Call → Element
element_of (property name value) =
    leaf "Property" (("Name", escaped name) ∷ ("Value", escaped value) ∷ [])
element_of (property_raw name value) =
    leaf "Property" (("Name", escaped name) ∷ ("Value", raw value) ∷ [])
element_of (script_property name script) =
    node "Property" (name_attribute name)
      (only (node "Value" [] (only (text (normalize_script_content script)))))
element_of (references name rs) = relationship name (entries rs)
element_of (builtin_type name type_ref) =
    relationship name (only (entry (builtin_reference type_ref)))
element_of (schema name) =
    let name_ref = codes "[" ++ name ++ codes "]" in
    relationship (codes "Schema") (
      only
        (entry (if is_builtin_schema name then builtin_reference name_ref else reference name_ref)))
element_of (type_specifier name) = relationship (codes "TypeSpecifier") (
    only (
      entry (
        node "Element" (("Type", escaped (codes "SqlTypeSpecifier")) ∷ [])
          (only (relationship (codes "Type") (only (entry (builtin_reference name))))))))

unfoldable pub elements_of : List Call → Elements
elements_of [] = nil
elements_of (c ∷ cs) = cons (element_of c) (elements_of cs)

module _ {W : Type 0} (writer : Writer W) where
  unfoldable pub write_call : Call → Write W
  write_call (property name value) = write_property writer name value
  write_call (property_raw name value) = write_property_raw writer name value
  write_call (script_property name script) = write_script_property writer name script
  write_call (references name rs) = write_relationship writer name rs
  write_call (builtin_type name type_ref) = write_builtin_type_relationship writer name type_ref
  write_call (schema name) = write_schema_relationship writer name
  write_call (type_specifier name) = write_type_specifier_builtin writer name

  unfoldable pub write_calls : List Call → Write W
  write_calls [] = done
  write_calls (c ∷ cs) = do write_call c; write_calls cs

  -- The events one by one, up to the first that fails.
  unfoldable pub write_all : List Event → Write W
  write_all [] w = some w
  write_all (e ∷ es) w = elim (writer.write_event w e) [ none ↦ none | some v ↦ write_all es v ]

  and_then : Option W → List Event → Option W
  and_then none es = none
  and_then (some w) es = write_all es w

  -- What a part of the code writes, in front of any events.
  record Writes (f : Write W) (d : List Event → List Event) : Type 0 where
    apply : (rest : List Event) (w : W) → and_then (f w) rest ≡ write_all (d rest) w

  done-Writes : Writes done (λ rest. rest)
  unfolding and_then
  done-Writes = record { apply = λ rest w. refl }

  write-Writes : (e : Event) → Writes (write writer e) (λ rest. e ∷ rest)
  unfolding and_then write_all
  write-Writes e = record { apply = λ rest w. go rest (writer.write_event w e) }
    where
      go :
          (rest : List Event) (o : Option W)
          → and_then o rest ≡ elim o [ none ↦ none | some v ↦ write_all rest v ]
      go rest none = refl
      go rest (some v) = refl

  then-Writes :
      (f g : Write W) (d d' : List Event → List Event)
      → Writes f d
      → Writes g d'
      → Writes (f >> g) (λ rest. d (d' rest))
  unfolding and_then
  then-Writes f g d d' hf hg = record { apply = λ rest w. go rest (f w) ∙ hf.apply (d' rest) w }
    where
      go :
          (rest : List Event) (o : Option W)
          → and_then (elim o [ none ↦ none | some v ↦ g v ]) rest ≡ and_then o (d' rest)
      go rest none = refl
      go rest (some v) = hg.apply rest v

  -- One event in front of what is written.
  before :
      {g : Write W} {d : List Event → List Event} (e : Event)
      → Writes g d
      → Writes (write writer e >> g) (λ rest. e ∷ d rest)
  before {g} {d} e h = then-Writes (write writer e) g (λ rest. e ∷ rest) d (write-Writes e) h

  write_entries-events :
      (rs : List Text) → Writes (write_entries writer rs) (events_all (entries rs))
  unfolding write_entries events
  write_entries-events [] = done-Writes
  write_entries-events (r ∷ rs) = before _ (before _ (before _ (write_entries-events rs)))

  write_call-events : (c : Call) → Writes (write_call c) (events (element_of c))
  unfolding write_call events element_of write_property write_property_raw write_script_property
      write_relationship write_builtin_type_relationship write_schema_relationship
      write_type_specifier_builtin
  write_call-events (property name value) = before _ done-Writes
  write_call-events (property_raw name value) = before _ done-Writes
  write_call-events (script_property name script) =
      before _ (before _ (before _ (before _ (before _ done-Writes))))
  write_call-events (references name rs) =
      before _ (then-Writes _ _ _ _ (write_entries-events rs) (before _ done-Writes))
  write_call-events (builtin_type name type_ref) =
      before _ (before _ (before _ (before _ (before _ done-Writes))))
  write_call-events (schema name) = elim (Bool-cases (is_builtin_schema name)) [
    | inl h ↦ rw h (before _ (before _ (before _ (before _ (before _ done-Writes)))))
    | inr h ↦ rw h (before _ (before _ (before _ (before _ (before _ done-Writes)))))
  ]
  write_call-events (type_specifier name) = before _ (
      before _ (
        before _ (
          before _ (
            before _
              (before _ (before _ (before _ (before _ (before _ (before _ done-Writes))))))))))

  write_calls-Writes : (cs : List Call) → Writes (write_calls cs) (events_all (elements_of cs))
  unfolding write_calls events elements_of
  write_calls-Writes [] = done-Writes
  write_calls-Writes (c ∷ cs) = then-Writes _ _ _ _ (write_call-events c) (write_calls-Writes cs)

  and_then_nil : (o : Option W) → and_then o [] ≡ o
  unfolding and_then write_all
  and_then_nil none = refl
  and_then_nil (some w) = refl

  -- Any calls of the writing functions, one after the other, write the events of the elements that
  -- they are to write, in order, and fail exactly where the writer fails on one of these events.
  pub write_calls-events :
      (cs : List Call) (w : W) → write_calls cs w ≡ write_all (events_all (elements_of cs) []) w
  write_calls-events cs w =
      sym (and_then_nil (write_calls cs w)) ∙ (write_calls-Writes cs).apply [] w
