-- ===== src/Trigger/Clause.antt =====
-- The clause of a trigger: its type and its events.
use rust_sqlpackage.Prelude.{
  ℕ, zero, suc, ◌≤◌, ◌≡◌, refl, ap, ◌∙◌, Bool, true, false, ◌||◌, none, some, List, [], ◌∷◌, ◌++◌,
  append_assoc, arith, length, length-append, codes,
}
use rust_sqlpackage.Token.{Token, word, comma, Keyword, is_whitespace_token, discriminant}
use rust_sqlpackage.TokenParser.{is_keyword, is_word_ci, same_kind, remaining}
use rust_sqlpackage.TokenParser.Cursor.{
  cursor, head_is, AllBlank, blanks, skip_blank, skip_whitespace-cursor, remaining-cursor,
}
use rust_sqlpackage.Preprocess.Replace.{attempt_laws}
use rust_sqlpackage.Trigger.{
  Event, Events, insert, update, delete, no_events, note_event, event_at, events_loop, parse_events,
  some_event, parse_trigger_type, parse_trigger_clause,
}

-- The word of a keyword, in upper case.
abbrev pub upper : Keyword → Token
upper k = word (record { value = codes k; quote_style = none; keyword = k })

abbrev event_keyword : Event → Keyword
event_keyword insert = "INSERT"
event_keyword update = "UPDATE"
event_keyword delete = "DELETE"

-- `, EVENT` with white space around the comma
pub record More : Type 0 where
  pub before : List Token
  pub after : List Token
  pub event : Event

unfoldable pub more_tokens : List More → List Token → List Token
more_tokens [] ts = ts
more_tokens (m ∷ ms) ts =
    m.before ++ (comma ∷ (m.after ++ (upper (event_keyword m.event) ∷ more_tokens ms ts)))

abbrev pub events_tokens : Event → List More → List Token → List Token
events_tokens e ms ts = upper (event_keyword e) ∷ more_tokens ms ts

abbrev pub AreSpaced : List More → Type 0
AreSpaced [] = Unit
AreSpaced (m ∷ ms) = AllBlank m.before × AllBlank m.after × AreSpaced ms

-- Whether an event is one of those that are written.
abbrev is_event : Event → Event → Bool
is_event insert insert = true
is_event update update = true
is_event delete delete = true
is_event _ _ = false

unfoldable pub is_written : Event → Event → List More → Bool
is_written x e [] = is_event x e
is_written x e (m ∷ ms) = is_event x e || is_written x m.event ms

-- A flag is set if its event is written, or was set before.
unfoldable flags : Event → List More → Events → Events
flags e ms s = record {
  is_insert = s.is_insert || is_written insert e ms;
  is_update = s.is_update || is_written update e ms;
  is_delete = s.is_delete || is_written delete e ms;
}

-- The events that are written.
unfoldable pub events_of : Event → List More → Events
events_of e ms = record {
  is_insert = is_written insert e ms;
  is_update = is_written update e ms;
  is_delete = is_written delete e ms;
}

note_last : (e : Event) (s : Events) → note_event e s ≡ flags e [] s
unfolding is_written flags
note_last insert s = ground arith
note_last update s = ground arith
note_last delete s = ground arith

note_more :
    (e : Event) (m : More) (ms : List More) (s : Events)
    → flags m.event ms (note_event e s) ≡ flags e (m ∷ ms) s
unfolding is_written flags
note_more insert m ms s = ground arith
note_more update m ms s = ground arith
note_more delete m ms s = ground arith

flags_before : (e : Event) (ms : List More) → flags e ms no_events ≡ events_of e ms
unfolding flags events_of
flags_before e ms = refl

event_at-cursor :
    (e : Event) (b ts : List Token) → event_at (cursor b (upper (event_keyword e) ∷ ts)) ≡ some e
unfolding event_at is_keyword
event_at-cursor insert b ts = simp attempt_laws
event_at-cursor update b ts = simp attempt_laws
event_at-cursor delete b ts = simp attempt_laws

events_loop-more :
    (f : ℕ) (s : Events) (e e' : Event) (b g g' ts : List Token)
    → AllBlank g
    → AllBlank g'
    → events_loop (suc f) s (
        cursor b
          (upper (event_keyword e) ∷ (g ++ (comma ∷ (g' ++ (upper (event_keyword e') ∷ ts))))))
      ≡ events_loop f (note_event e s) (
          cursor (b ++ upper (event_keyword e) ∷ (g ++ comma ∷ g')) (upper (event_keyword e') ∷ ts))
unfolding events_loop is_whitespace_token discriminant
events_loop-more f s e e' b g g' ts h h' =
    rw (event_at-cursor e b (g ++ (comma ∷ (g' ++ (upper (event_keyword e') ∷ ts)))), events_loop)
      (simp attempt_laws)

events_loop-last :
    (f : ℕ) (s : Events) (e : Event) (b ts : List Token)
    → head_is (same_kind comma) (skip_blank ts) ≡ false
    → events_loop (suc f) s (cursor b (upper (event_keyword e) ∷ ts))
      ≡ (note_event e s, cursor (b ++ upper (event_keyword e) ∷ blanks ts) (skip_blank ts))
unfolding events_loop
events_loop-last f s e b ts h =
    rw (event_at-cursor e b ts, events_loop) (simp (attempt_laws, skip_whitespace-cursor, h))

events_loop-events :
    (f : ℕ) (s : Events) (e : Event) (ms : List More) (b ts : List Token)
    → AreSpaced ms
    → head_is (same_kind comma) (skip_blank ts) ≡ false
    → length (events_tokens e ms ts) ≤ f
    → events_loop f s (cursor b (events_tokens e ms ts))
      ≡ (flags e ms s, cursor (b ++ events_tokens e ms (blanks ts)) (skip_blank ts))
unfolding more_tokens
events_loop-events zero s e ms b ts sp h k = elim k [ ]
events_loop-events (suc f) s e [] b ts sp h k =
    events_loop-last f s e b ts h
    ∙ ap (λ r. (r, cursor (b ++ upper (event_keyword e) ∷ blanks ts) (skip_blank ts)))
        (note_last e s)
events_loop-events (suc f) s e (m ∷ ms) b ts (h₀, h₁, sp) h k =
    events_loop-more f s e m.event b m.before m.after (more_tokens ms ts) h₀ h₁
    ∙ events_loop-events f (note_event e s) m.event ms _ ts sp h (
        omega (
          arith,
          k,
          length-append m.before (comma ∷ (m.after ++ events_tokens m.event ms ts)),
          length-append m.after (events_tokens m.event ms ts),
        ))
    ∙ simp (append_assoc, note_more)

some_event-events : (e : Event) (ms : List More) → some_event (events_of e ms) ≡ true
unfolding events_of is_written
some_event-events insert [] = refl
some_event-events update [] = refl
some_event-events delete [] = refl
some_event-events insert (m ∷ ms) = refl
some_event-events update (m ∷ ms) = ground arith
some_event-events delete (m ∷ ms) = ground arith

-- The type of a trigger as it is written.
pub data Timing : Type 0 where
  after for_each : Timing
  instead_of : List Token → Timing

abbrev pub timing_tokens : Timing → List Token → List Token
timing_tokens after ts = upper "AFTER" ∷ ts
timing_tokens for_each ts = upper "FOR" ∷ ts
timing_tokens (instead_of g) ts = upper "INSTEAD" ∷ (g ++ (upper "OF" ∷ ts))

abbrev pub timing_number : Timing → ℕ
timing_number (instead_of g) = 3
timing_number _ = 2

abbrev pub GapIsBlank : Timing → Type 0
GapIsBlank (instead_of g) = AllBlank g
GapIsBlank _ = Unit

parse_trigger_type-timing :
    (t : Timing) (g : List Token) (k : Keyword) (b ts : List Token)
    → GapIsBlank t
    → AllBlank g
    → parse_trigger_type (cursor b (timing_tokens t (g ++ (upper k ∷ ts))))
      ≡ (some (timing_number t), cursor (b ++ timing_tokens t g) (upper k ∷ ts))
unfolding parse_trigger_type is_keyword is_word_ci is_whitespace_token
parse_trigger_type-timing after g k b ts h h' = simp attempt_laws
parse_trigger_type-timing for_each g k b ts h h' = simp attempt_laws
parse_trigger_type-timing (instead_of gap) g k b ts h h' = simp attempt_laws

timing_tokens-append :
    (t : Timing) (us ts : List Token) → timing_tokens t us ++ ts ≡ timing_tokens t (us ++ ts)
timing_tokens-append after us ts = refl
timing_tokens-append for_each us ts = refl
timing_tokens-append (instead_of g) us ts = simp append_assoc

-- A trigger's clause, AFTER, FOR or INSTEAD OF and events with commas between them in any white
-- space where no comma follows, gives type 3 for INSTEAD OF and 2 otherwise, and sets the flag
-- of an event exactly if that event is among those written; the parser stops behind the white
-- space that follows.
pub parse_trigger_clause-events :
    (t : Timing) (g : List Token) (e : Event) (ms : List More) (b ts : List Token)
    → GapIsBlank t
    → AllBlank g
    → AreSpaced ms
    → head_is (same_kind comma) (skip_blank ts) ≡ false
    → parse_trigger_clause (cursor b (timing_tokens t (g ++ events_tokens e ms ts))) ≡ (
      some (timing_number t, events_of e ms),
      cursor (b ++ timing_tokens t (g ++ events_tokens e ms (blanks ts))) (skip_blank ts),
    )
unfolding parse_trigger_clause parse_events
parse_trigger_clause-events t g e ms b ts h₀ h₁ sp h =
    let us = events_tokens e ms ts in
    let c = b ++ timing_tokens t g in
    let run =
      events_loop-events (remaining (cursor c us)) no_events e ms c ts sp h
        (omega (arith, remaining-cursor c us)) in
    simp (
      attempt_laws, parse_trigger_type-timing, timing_tokens-append, run, flags_before,
      some_event-events,
    )
