-- ===== src/Tests/Statements.antt =====
-- The statements' parsers on concrete tokens.
use rust_sqlpackage.Prelude.{ℕ, ◌≡◌, refl, true, false, some, List, [], ◌∷◌, arith, codes, decimal}
use rust_sqlpackage.Token.{Token, word, period, comma, discriminant, is_whitespace_token}
use rust_sqlpackage.TokenParser.{from_tokens, is_at_end, is_keyword, is_word_ci}
use rust_sqlpackage.TokenParser.Cursor.{cursor, blanks, skip_blank}
use rust_sqlpackage.Synonym.{parse_create_synonym}
use rust_sqlpackage.Synonym.Target.{Part, values}
use rust_sqlpackage.Synonym.Create.{
  Statement, statement_tokens, with_target, parse_create_synonym-Statement,
}
use rust_sqlpackage.Sequence.{TokenParsedSequence, named, parse_sequence_options}
use rust_sqlpackage.Sequence.Options.{Value, SequenceOption}
use rust_sqlpackage.Sequence.Run.{Spaced, options_tokens, apply_all, parse_sequence_options-options}
use rust_sqlpackage.Sequence.Ends.{parse_sequence_options-is_at_end}
use rust_sqlpackage.Trigger.{insert, delete, parse_trigger_clause}
use rust_sqlpackage.Trigger.Clause.{
  More, timing_tokens, events_tokens, instead_of, events_of, parse_trigger_clause-events,
}
use rust_sqlpackage.Tests.{lib, bare, space}

abbrev parts : List Part
parts =
    record { before = []; after = []; name = bare "dbo" }
    ∷ record { before = space ∷ []; after = []; name = bare "Target" }
    ∷ []

abbrev statement : Statement
statement = record {
  gap₀ = [];
  create_word = bare "CREATE";
  gap₁ = space ∷ [];
  synonym_word = bare "Synonym";
  gap₂ = space ∷ [];
  prefix = some (bare "app", [], space ∷ []);
  object = bare "Orders";
  gap₃ = space ∷ [];
  for_word = bare "FOR";
  gap₄ = space ∷ [];
  first = bare "db";
  more = parts;
}

parse_create_synonym-Statement_example :
    parse_create_synonym (cursor [] (statement_tokens statement [])) ≡ (
      with_target (codes "app") (codes "Orders") (codes "db" ∷ values parts),
      cursor (statement_tokens statement (blanks [])) (skip_blank []),
    )
unfolding is_keyword is_word_ci is_whitespace_token
parse_create_synonym-Statement_example =
    parse_create_synonym-Statement statement [] []
      (
        tt,
        (refl, tt),
        (refl, tt),
        (refl, tt),
        (refl, tt),
        (tt, (refl, tt)),
        (tt, tt, ((refl, tt), tt, tt)),
        refl,
        refl,
        refl,
      )
      refl

-- `AS bigint START WITH - 5 NO CACHE`
abbrev minus_five : Value
minus_five = record { sign = some (space ∷ []); digits = codes "5"; long = false; magnitude = 5 }

abbrev options : List Spaced
options =
    record {
      option = SequenceOption.as_type (bare "bigint");
      gap₀ = space ∷ [];
      gap₁ = space ∷ [];
      gap₂ = [];
    }
    ∷ record {
      option = SequenceOption.start minus_five;
      gap₀ = space ∷ [];
      gap₁ = space ∷ [];
      gap₂ = space ∷ [];
    }
    ∷ record { option = SequenceOption.no_cache; gap₀ = space ∷ []; gap₁ = space ∷ []; gap₂ = [] }
    ∷ []

abbrev counter : TokenParsedSequence
counter = named (codes "dbo", codes "Counter")

parse_sequence_options-options_example :
    parse_sequence_options lib false counter (cursor [] (options_tokens false options (space ∷ [])))
    ≡ (apply_all lib options counter, cursor (options_tokens false options (space ∷ [])) [])
unfolding is_whitespace_token decimal
parse_sequence_options-options_example =
    parse_sequence_options-options lib false counter options [] (space ∷ [])
      (
        ((refl, tt), (refl, tt), tt, refl),
        (
          (
            (refl, tt),
            (refl, tt),
            (refl, tt),
            ((refl, tt), (omega arith, omega arith, tt), refl, refl, omega arith),
          ),
          (((refl, tt), (refl, tt), tt, tt), tt),
        ),
      )
      (refl, tt)

parse_sequence_options-is_at_end_example :
    is_at_end
      (parse_sequence_options lib true counter
        (from_tokens (word (bare "RESTART") ∷ period ∷ []))).1
    ≡ true
parse_sequence_options-is_at_end_example =
    parse_sequence_options-is_at_end lib true counter
      (from_tokens (word (bare "RESTART") ∷ period ∷ [])) (omega arith)

-- One blank before each part, and no side: the boundaries count as RIGHT.
abbrev blank_before : ℕ → List Token
blank_before i = space ∷ []

abbrev dates : List Token
dates =
    Token.single_quoted_string (codes "2014-01-01") ∷ comma ∷ Token.number (codes "7") false ∷ []

-- `INSTEAD OF INSERT , DELETE`
abbrev and_delete : List More
and_delete = record { before = space ∷ []; after = space ∷ []; event = delete } ∷ []

parse_trigger_clause-events_example :
    parse_trigger_clause (
      cursor [] (
        timing_tokens
          (instead_of (space ∷ []))
          (space ∷ events_tokens insert and_delete (space ∷ period ∷ []))))
    ≡ (
      some (3, events_of insert and_delete),
      cursor
          (timing_tokens
            (instead_of (space ∷ []))
            (space ∷ events_tokens insert and_delete (blanks (space ∷ period ∷ []))))
          (skip_blank (space ∷ period ∷ [])),
    )
unfolding is_whitespace_token discriminant
parse_trigger_clause-events_example =
    parse_trigger_clause-events (instead_of (space ∷ [])) (space ∷ []) insert and_delete []
      (space ∷ period ∷ []) (refl, tt) (refl, tt) ((refl, tt), (refl, tt), tt) refl
