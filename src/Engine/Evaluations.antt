-- ===== src/Engine/Evaluations.antt =====
-- Which rules engine.go asks about which statements.
use postgres_sqlguard.Common.{
  ◌≡◌, refl, sym, ◌∙◌, ap, List, [], ◌∷◌, ◌++◌, map, append-nil, Option, none, some, GoString,
}
use mathlib.Core.Option.{some-injective}
use postgres_sqlguard.Parser.Result.{Result}
use postgres_sqlguard.Parser.Protobuf.{Backend}
use postgres_sqlguard.Parser.Convert.{ParseOutcome, parsed, failed, parse}
use postgres_sqlguard.Parser.Traversal.{statement_sequence}
use postgres_sqlguard.Statement.{Statement}
use postgres_sqlguard.Errors.{GoError, translate_parser_error}
use postgres_sqlguard.Observability.{ValidationEvent, ValidationOutcome}
use postgres_sqlguard.Runtime.{Outcome, returned, panicked, State}
use postgres_sqlguard.Interface.{Interface, nil_interface, holds}
use postgres_sqlguard.Contracts.{Call, evaluated, Context, Metrics, Logger, Engine}
use postgres_sqlguard.Engine.{validate}
use postgres_sqlguard.Engine.Schedule.{
  Round, schedule, metrics_calls, logger_calls, sink_calls, terminal_calls, Run, finished, passed,
  violated, stopped, err_panic, rule_panic,
}
use postgres_sqlguard.Engine.Session.{
  PreparedRun, ended, broken, unprepared, evaluating, Session, ended_before, broken_before,
  ended_after, broken_after, unparsed, prepared,
}
use postgres_sqlguard.Engine.Refines.{validate-Session}

-- The evaluations among calls: the registered identifier and the statement of each.
unfoldable pub evaluations : List Call → List (GoString × Statement)
evaluations [] = []
evaluations (evaluated id st ∷ calls) = (id, st) ∷ evaluations calls
evaluations (_ ∷ calls) = evaluations calls

abbrev pub pair_of : {W : Type 0} → Round W → GoString × Statement
pair_of (reg, st) = (reg.rule_id, st)

evaluations-sinks :
    {W : Type 0} (m : Interface (Metrics W)) (l : Interface (Logger W)) (event : ValidationEvent)
    → evaluations (metrics_calls m event ++ logger_calls l event) ≡ []
unfolding evaluations
evaluations-sinks nil_interface nil_interface event = refl
evaluations-sinks nil_interface (holds k n l) event = refl
evaluations-sinks (holds k n m) nil_interface event = refl
evaluations-sinks (holds k n m) (holds k' n' l) event = refl

module _ {W : Type 0} (e : Engine W) where
  evaluations-terminal :
      (o : ValidationOutcome) (id : GoString) → evaluations (terminal_calls e o id) ≡ []
  unfolding sink_calls
  evaluations-terminal o id = evaluations-sinks e.metrics e.logger _

  module _ (ctx : Context W) where
    -- The evaluations of a run are the first rounds; all of them, if it allows.
    abbrev Covers : List (GoString × Statement) → List Call → Outcome (Option GoError) → Type 0
    Covers pairs calls (returned none) = evaluations calls ≡ pairs
    Covers pairs calls _ =
        (rest : List (GoString × Statement)) × (pairs ≡ evaluations calls ++ rest)

    Run-Covers :
        {rounds : List (Round W)} {w : W} {calls : List Call} {o : Outcome (Option GoError)}
        → Run e ctx rounds w calls o
        → Covers (map pair_of rounds) calls o
    unfolding evaluations
    Run-Covers finished = evaluations-terminal _ _
    Run-Covers (passed {reg = reg} {st = st} {o = returned none} live answered ok_ run) =
        ap (◌∷◌ (reg.rule_id, st)) (Run-Covers run)
    Run-Covers (passed {reg = reg} {st = st} {o = returned (some x)} live answered ok_ run) =
        let (rest, split) = Run-Covers run in (rest, ap (◌∷◌ (reg.rule_id, st)) split)
    Run-Covers (passed {reg = reg} {st = st} {o = panicked} live answered ok_ run) =
        let (rest, split) = Run-Covers run in (rest, ap (◌∷◌ (reg.rule_id, st)) split)
    Run-Covers (violated {reg = reg} {st = st} {rounds = rounds} live answered denied) =
        (map pair_of rounds, rw evaluations-terminal refl)
    Run-Covers (stopped {round = round} {rounds = rounds} over) =
        (map pair_of (round ∷ rounds), rw evaluations-terminal refl)
    Run-Covers (err_panic {round = round} {rounds = rounds} over) =
        (map pair_of (round ∷ rounds), refl)
    Run-Covers (rule_panic {rounds = rounds} live over) = (map pair_of rounds, refl)

    Covers-all :
        (pairs : List (GoString × Statement)) (calls : List Call) (o : Outcome (Option GoError))
        → Covers pairs calls o
        → o ≡ returned none
        → evaluations calls ≡ pairs
    Covers-all pairs calls (returned none) h e = h
    Covers-all pairs calls (returned (some x)) h e = cc
    Covers-all pairs calls panicked h e = cc

    Covers-prefix :
        (pairs : List (GoString × Statement)) (calls : List Call) (o : Outcome (Option GoError))
        → Covers pairs calls o
        → (rest : List (GoString × Statement)) × (pairs ≡ evaluations calls ++ rest)
    Covers-prefix pairs calls (returned none) h = ([], sym (append-nil (evaluations calls) ∙ h))
    Covers-prefix pairs calls (returned (some x)) h = h
    Covers-prefix pairs calls panicked h = h

    -- Every rule on every statement, statement by statement.
    abbrev pub all_pairs : Result → List (GoString × Statement)
    all_pairs r = map pair_of (schedule e.rules (statement_sequence (some r)))

    module _ (backend : Backend) (sql : GoString) where
      pub PreparedRun-all :
          (r : Result) {w : W} {calls : List Call} {o : Outcome (Option GoError)}
          → PreparedRun e ctx (some r) w calls o
          → o ≡ returned none
          → evaluations calls ≡ all_pairs r
      unfolding evaluations
      PreparedRun-all r (ended over) eq = cc
      PreparedRun-all r (broken over) eq = cc
      PreparedRun-all r (unprepared live absent) eq = cc
      PreparedRun-all r (evaluating {r = q} {calls = calls} {o = o} live present run) eq =
          Covers-all _ calls o (Run-Covers run) eq ∙ ap all_pairs (sym (some-injective r q present))

      pub Session-all :
          {w : W} {calls : List Call} {o : Outcome (Option GoError)}
          → Session backend e ctx sql w calls o
          → o ≡ returned none
          → (r : Result) × (parse backend sql ≡ parsed r) × (evaluations calls ≡ all_pairs r)
      unfolding evaluations translate_parser_error
      Session-all (ended_before over) eq = cc
      Session-all (broken_before over) eq = cc
      Session-all (ended_after live over) eq = cc
      Session-all (broken_after live over) eq = cc
      Session-all (unparsed live still parsing) eq = cc
      Session-all (prepared {r = r} live still parsing run) eq =
          (r, parsing, PreparedRun-all r run eq)

      -- If `Validate` returns no error, the whole text parsed, and the call asked every registered rule about every
      -- statement of the sequence, statement by statement and in registration order, once each.
      pub validate_allowed-all :
          (s : State W Call)
          → (validate backend e ctx sql s).0 ≡ returned none
          → (r : Result) × (calls : List Call) × (parse backend sql ≡ parsed r)
            × ((validate backend e ctx sql s).1.trace ≡ s.trace ++ calls)
            × (evaluations calls ≡ all_pairs r)
      validate_allowed-all s allowed =
          let (calls, trace, run) = validate-Session e ctx backend sql s in
          let (r, parsing, all) = Session-all run allowed in (r, calls, parsing, trace, all)

      PreparedRun-prefix :
          (r : Result) {w : W} {calls : List Call} {o : Outcome (Option GoError)}
          → PreparedRun e ctx (some r) w calls o
          → (rest : List (GoString × Statement)) × (all_pairs r ≡ evaluations calls ++ rest)
      unfolding evaluations
      PreparedRun-prefix r (ended over) = (all_pairs r, rw evaluations-terminal refl)
      PreparedRun-prefix r (broken over) = (all_pairs r, refl)
      PreparedRun-prefix r (unprepared live absent) = (all_pairs r, rw evaluations-terminal refl)
      PreparedRun-prefix r (evaluating {r = q} {calls = calls} {o = o} live present run) =
          let (rest, split) = Covers-prefix _ calls o (Run-Covers run) in
          (rest, ap all_pairs (some-injective r q present) ∙ split)

      -- The rules that may be asked about a text: none if it does not parse.
      abbrev pub askable : ParseOutcome → List (GoString × Statement)
      askable (parsed r) = all_pairs r
      askable (failed p) = []

      Session-prefix :
          {w : W} {calls : List Call} {o : Outcome (Option GoError)}
          → Session backend e ctx sql w calls o
          → (rest : List (GoString × Statement)) × (askable (parse backend sql)
              ≡ evaluations calls ++ rest)
      unfolding evaluations
      Session-prefix (ended_before over) =
          (askable (parse backend sql), rw evaluations-terminal refl)
      Session-prefix (broken_before over) = (askable (parse backend sql), refl)
      Session-prefix (ended_after live over) =
          (askable (parse backend sql), rw evaluations-terminal refl)
      Session-prefix (broken_after live over) = (askable (parse backend sql), refl)
      Session-prefix (unparsed live still parsing) = ([], rw (evaluations-terminal, parsing) refl)
      Session-prefix (prepared {r = r} live still parsing run) =
          let (rest, split) = PreparedRun-prefix r run in (rest, rw parsing split)

      -- However `Validate` ends, the rules that it has asked are an initial part of the pairs of
      -- a statement of the sequence and a registered rule, statement by statement and in registration
      -- order; of a text that does not parse there are none.
      pub validate-evaluates_prefix :
          (s : State W Call)
          → (calls : List Call) × (rest : List (GoString × Statement)) × ((validate backend e ctx
                sql s).1.trace
              ≡ s.trace ++ calls)
            × (askable (parse backend sql) ≡ evaluations calls ++ rest)
      validate-evaluates_prefix s =
          let (calls, trace, run) = validate-Session e ctx backend sql s in
          let (rest, split) = Session-prefix run in (calls, rest, trace, split)
