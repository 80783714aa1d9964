-- ===== src/Trigger.antt =====
-- `TriggerTokenParser` of src/parser/trigger_parser.rs: CREATE TRIGGER.
pub mod Clause
use rust_sqlpackage.Prelude.{
  ℕ, zero, suc, Bool, true, false, ◌&&◌, ◌||◌, not, if◌then◌else◌, Option, none, some, List, Text,
  codes,
}
use rust_sqlpackage.Token.{Token, comma, Sqlparser}
use rust_sqlpackage.TokenParser.{
  TokenParser, Parse, pure, fail, exec, asks, require, ◌>>=◌, ◌>>◌, new, from_tokens, advance,
  skip_whitespace, check_keyword, check_word_ci, check_token, parse_schema_qualified_name,
  remaining,
}

pub record TokenParsedTrigger : Type 0 where
  pub schema : Text
  pub name : Text
  pub parent_schema : Text
  pub parent_name : Text
  pub is_insert : Bool
  pub is_update : Bool
  pub is_delete : Bool
  pub trigger_type : ℕ

pub data Event : Type 0 where
  insert update delete : Event

-- The three flags of the events.
pub record Events : Type 0 where
  pub is_insert : Bool
  pub is_update : Bool
  pub is_delete : Bool

abbrev pub no_events : Events
no_events = record { is_insert = false; is_update = false; is_delete = false }

abbrev pub note_event : Event → Events → Events
note_event insert s = record s { is_insert = true }
note_event update s = record s { is_update = true }
note_event delete s = record s { is_delete = true }

-- The event at the position, by the tests at the head of the loop.
unfoldable pub event_at : TokenParser → Option Event
event_at p =
    if check_keyword "INSERT" p
    then some insert
    else if check_keyword "UPDATE" p
    then some update
    else if check_keyword "DELETE" p
    then some delete
    else none

-- The loop over the events. A round that goes on moves past two tokens at least.
unfoldable pub events_loop : ℕ → Events → TokenParser → Events × TokenParser
events_loop zero s p = (s, p)
events_loop (suc f) s p =
    let q = skip_whitespace (advance p) in
    let next = λ (e : Event). events_loop f (note_event e s) (skip_whitespace (advance q)) in
    elim (event_at p) [
      | none ↦ (s, p)
      | some e ↦ if check_token comma q then next e else (note_event e s, q)
    ]

unfoldable pub parse_events : TokenParser → Events × TokenParser
parse_events p = events_loop (remaining p) no_events p

-- 3 for INSTEAD OF, 2 for AFTER and FOR
unfoldable pub parse_trigger_type : Parse ℕ
parse_trigger_type = do
  instead ← asks (check_word_ci (codes "INSTEAD"))
  after ← asks (λ p. check_keyword "AFTER" p || check_keyword "FOR" p)
  let instead_of = do
    exec advance
    exec skip_whitespace
    require (check_keyword "OF")
    exec advance
    exec skip_whitespace
    pure 3
  let after_or_for = do exec advance; exec skip_whitespace; pure 2
  if instead then instead_of else if after then after_or_for else fail

abbrev pub some_event : Events → Bool
some_event s = s.is_insert || s.is_update || s.is_delete

unfoldable pub parse_trigger_clause : Parse (ℕ × Events)
parse_trigger_clause = do
  trigger_type ← parse_trigger_type
  events ← λ p. (let r = parse_events p in (some r.0, r.1))
  require (λ p. some_event events)
  pure (trigger_type, events)

-- The optional `OR ALTER`.
abbrev pub or_alter : Parse (Unit {0})
or_alter = do
  found ← asks (check_keyword "OR")
  let alter = do
    exec advance
    exec skip_whitespace
    require (check_keyword "ALTER")
    exec advance
    exec skip_whitespace
  if found then alter else pure tt

unfoldable pub parse_create_trigger : Parse TokenParsedTrigger
parse_create_trigger = do
  exec skip_whitespace
  require (check_keyword "CREATE")
  exec advance
  exec skip_whitespace
  or_alter
  require (check_keyword "TRIGGER")
  exec advance
  exec skip_whitespace
  trigger ← parse_schema_qualified_name
  exec skip_whitespace
  require (check_keyword "ON")
  exec advance
  exec skip_whitespace
  parent ← parse_schema_qualified_name
  exec skip_whitespace
  clause ← parse_trigger_clause
  pure (record {
    schema = trigger.0;
    name = trigger.1;
    parent_schema = parent.0;
    parent_name = parent.1;
    is_insert = clause.1.is_insert;
    is_update = clause.1.is_update;
    is_delete = clause.1.is_delete;
    trigger_type = clause.0;
  })

unfoldable pub parse_create_trigger_tokens : Sqlparser → Text → Option TokenParsedTrigger
parse_create_trigger_tokens lib sql = elim (new lib sql) [
  | none ↦ none
  | some parser ↦ (parse_create_trigger parser).0
]

unfoldable pub parse_create_trigger_tokens_with_tokens : List Token → Option TokenParsedTrigger
parse_create_trigger_tokens_with_tokens tokens = (parse_create_trigger (from_tokens tokens)).0
