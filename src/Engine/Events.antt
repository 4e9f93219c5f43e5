-- ===== src/Engine/Events.antt =====
-- The terminal events of engine.go.
use postgres_sqlguard.Common.{◌≡◌, refl, ap, List, [], ◌∷◌, ◌++◌, Option, none, some, GoString}
use postgres_sqlguard.Parser.Result.{Result}
use postgres_sqlguard.Parser.Protobuf.{Backend}
use postgres_sqlguard.Errors.{
  GoError, violation, parse_error, new_violation, translate_parser_error, err_invalid_prepared,
}
use postgres_sqlguard.Observability.{
  ValidationEvent, enforce, new_validation_event, allowed, policy_violation, parser_failure,
  canceled, invalid_prepared,
}
use postgres_sqlguard.Runtime.{Outcome, returned, panicked, State}
use postgres_sqlguard.Interface.{Interface, nil_interface, holds}
use postgres_sqlguard.Contracts.{Call, recorded, logged, Context, Metrics, Logger, Engine, Prepared}
use postgres_sqlguard.Engine.{validate, validate_prepared}
use postgres_sqlguard.Engine.Schedule.{
  Round, metrics_calls, logger_calls, sink_calls, Run, finished, passed, violated, stopped,
  err_panic, rule_panic,
}
use postgres_sqlguard.Engine.Session.{
  PreparedRun, ended, broken, unprepared, evaluating, Session, ended_before, broken_before,
  ended_after, broken_after, unparsed, prepared,
}
use postgres_sqlguard.Engine.Refines.{validate_prepared-PreparedRun, validate-Session}

-- The event that stands for a result under a context: `canceled` only for an error of the context.
pub data Describes {W : Type 0} (ctx : Context W) : ValidationEvent → Option GoError → Type 0 where
  is_allowed : Describes ctx (record { mode = enforce; outcome = allowed; rule_id = [] }) none
  is_violation :
      (id : GoString)
      → Describes ctx
          (record { mode = enforce; outcome = policy_violation; rule_id = id })
          (some (violation (some (record { rule_id = id }))))
  is_parse_failure :
      (category : GoString)
      → Describes ctx
          (record { mode = enforce; outcome = parser_failure; rule_id = [] })
          (some (parse_error (some (record { category = category }))))
  is_canceled :
      {err : GoError} {w : W}
      → (ctx.err w).0 ≡ returned (some err)
      → Describes ctx (record { mode = enforce; outcome = canceled; rule_id = [] }) (some err)
  is_invalid_prepared :
      Describes ctx
        (record { mode = enforce; outcome = invalid_prepared; rule_id = [] })
        (some err_invalid_prepared)

-- The calls of sinks among all calls.
unfoldable pub only_sinks : List Call → List Call
only_sinks [] = []
only_sinks (recorded event ∷ calls) = recorded event ∷ only_sinks calls
only_sinks (logged event ∷ calls) = logged event ∷ only_sinks calls
only_sinks (_ ∷ calls) = only_sinks calls

-- A return has handed one event that describes the result to each enabled sink, metrics first; a
-- panic has called no sink.
abbrev pub Reported :
    {W : Type 0} → Engine W → Context W → List Call → Outcome (Option GoError) → Type 0
Reported e ctx calls (returned result) =
    (event : ValidationEvent) × (only_sinks calls ≡ sink_calls e event) × Describes ctx event result
Reported e ctx calls panicked = only_sinks calls ≡ []

only_sinks-sinks :
    {W : Type 0} (m : Interface (Metrics W)) (l : Interface (Logger W)) (event : ValidationEvent)
    → only_sinks (metrics_calls m event ++ logger_calls l event)
      ≡ metrics_calls m event ++ logger_calls l event
unfolding only_sinks
only_sinks-sinks nil_interface nil_interface event = refl
only_sinks-sinks nil_interface (holds k n l) event = refl
only_sinks-sinks (holds k n m) nil_interface event = refl
only_sinks-sinks (holds k n m) (holds k' n' l) event = refl

module _ {W : Type 0} (e : Engine W) where
  only_sinks-sink_calls :
      (event : ValidationEvent) → only_sinks (sink_calls e event) ≡ sink_calls e event
  unfolding sink_calls
  only_sinks-sink_calls event = only_sinks-sinks e.metrics e.logger event

  module _ (ctx : Context W) where
    Run-Reported :
        {rounds : List (Round W)} {w : W} {calls : List Call} {o : Outcome (Option GoError)}
        → Run e ctx rounds w calls o
        → Reported e ctx calls o
    unfolding only_sinks new_validation_event new_violation
    Run-Reported finished = (_, only_sinks-sink_calls _, is_allowed)
    Run-Reported (passed {o = returned r} live answered ok_ run) = Run-Reported run
    Run-Reported (passed {o = panicked} live answered ok_ run) = Run-Reported run
    Run-Reported (violated {reg = reg} live answered denied) =
        (_, only_sinks-sink_calls _, is_violation reg.rule_id)
    Run-Reported (stopped over) = (_, only_sinks-sink_calls _, is_canceled (ap (λ r. r.0) over))
    Run-Reported (err_panic over) = refl
    Run-Reported (rule_panic live over) = refl

    PreparedRun-Reported :
        {r : Option Result} {w : W} {calls : List Call} {o : Outcome (Option GoError)}
        → PreparedRun e ctx r w calls o
        → Reported e ctx calls o
    unfolding only_sinks new_validation_event
    PreparedRun-Reported (ended over) =
        (_, only_sinks-sink_calls _, is_canceled (ap (λ r. r.0) over))
    PreparedRun-Reported (broken over) = refl
    PreparedRun-Reported (unprepared live absent) =
        (_, only_sinks-sink_calls _, is_invalid_prepared)
    PreparedRun-Reported (evaluating {o = returned r} live present run) = Run-Reported run
    PreparedRun-Reported (evaluating {o = panicked} live present run) = Run-Reported run

    Session-Reported :
        (backend : Backend) (sql : GoString) {w : W} {calls : List Call}
        {o : Outcome (Option GoError)}
        → Session backend e ctx sql w calls o
        → Reported e ctx calls o
    unfolding only_sinks new_validation_event translate_parser_error
    Session-Reported backend sql (ended_before over) =
        (_, only_sinks-sink_calls _, is_canceled (ap (λ r. r.0) over))
    Session-Reported backend sql (broken_before over) = refl
    Session-Reported backend sql (ended_after live over) =
        (_, only_sinks-sink_calls _, is_canceled (ap (λ r. r.0) over))
    Session-Reported backend sql (broken_after live over) = refl
    Session-Reported backend sql (unparsed live still parsing) =
        (_, only_sinks-sink_calls _, is_parse_failure _)
    Session-Reported backend sql (prepared {o = returned r} live still parsing run) =
        PreparedRun-Reported run
    Session-Reported backend sql (prepared {o = panicked} live still parsing run) =
        PreparedRun-Reported run

    -- A call of `Validate` that returns has handed exactly one terminal event to each enabled
    -- sink, the metrics before the logger, and the event describes the result: its outcome is that of the
    -- error or of its absence, and its rule identifier is that of the violation, or empty; it is
    -- `canceled` only for an error that the context has given. A
    -- call that panics (in the context or in a rule) has called no sink. Errors and panics of
    -- the sinks change nothing of this.
    pub validate-Reported :
        (backend : Backend) (sql : GoString) (s : State W Call)
        → (calls : List Call) × ((validate backend e ctx sql s).1.trace ≡ s.trace ++ calls)
          × Reported e ctx calls (validate backend e ctx sql s).0
    validate-Reported backend sql s =
        let (calls, trace, run) = validate-Session e ctx backend sql s in
        (calls, trace, Session-Reported backend sql run)

    -- A call of `ValidatePrepared` that returns, on any prepared value, the zero value included, has
    -- handed exactly one terminal event to each enabled sink, the metrics before the logger, and the
    -- event describes the result; it is `canceled` only for an error that the context has given. A
    -- call that panics has called no sink.
    pub validate_prepared-Reported :
        (p : Prepared) (s : State W Call)
        → (calls : List Call) × ((validate_prepared e ctx p s).1.trace ≡ s.trace ++ calls)
          × Reported e ctx calls (validate_prepared e ctx p s).0
    validate_prepared-Reported p s =
        let (calls, trace, run) = validate_prepared-PreparedRun e ctx p s in
        (calls, trace, PreparedRun-Reported run)
