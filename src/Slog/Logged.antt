-- ===== src/Slog/Logged.antt =====
-- An engine with the logger sink of pkg/observability/slog/slog.go: what its handler is told.
use postgres_sqlguard.Common.{
  ◌≡◌, List, [], ◌∷◌, ◌++◌, Option, GoString, ascii, In, Bool, true, false,
}
use postgres_sqlguard.Statement.{Statement}
use postgres_sqlguard.Errors.{GoError}
use postgres_sqlguard.Observability.{
  ValidationEvent, ValidationOutcome, allowed, policy_violation, parser_failure, canceled,
  invalid_prepared,
}
use postgres_sqlguard.Runtime.{Outcome, returned, panicked, State}
use postgres_sqlguard.Interface.{Interface, holds, ReflectKind}
use postgres_sqlguard.Contracts.{Call, Context, Metrics, RegisteredRule, Engine}
use postgres_sqlguard.Engine.{emit_metrics}
use postgres_sqlguard.Engine.Schedule.{answer_of}
use postgres_sqlguard.Engine.Events.{Describes}
use postgres_sqlguard.Engine.Observed.{IsNamed}
use postgres_sqlguard.Slog.{
  Level, level_info, level_debug, level_error, Handler, HandlerCall, asked, clock_read, handled,
  Logger, log_validation,
}

-- The level that an outcome is to be logged at.
pub data LogsAt : ValidationOutcome → Level → Type 0 where
  allowed_at_info : LogsAt allowed level_info
  violation_at_error : LogsAt policy_violation level_error
  parser_failure_at_error : LogsAt parser_failure level_error
  canceled_at_debug : LogsAt canceled level_debug
  invalid_prepared_at_error : LogsAt invalid_prepared level_error

-- The calls of the handler and of the clock for one event, if the handler enables these levels.
pub data Handles {Time : Type 0} (enabled_at : Level → Bool) (event : ValidationEvent)
    : List (HandlerCall Time) → Type 0 where
  disabled :
      {level : Level}
      → LogsAt event.outcome level
      → enabled_at level ≡ false
      → Handles enabled_at event (asked level ∷ [])
  logged_once :
      {level : Level} {name : GoString}
      → LogsAt event.outcome level
      → IsNamed event.outcome name
      → enabled_at level ≡ true
      → (time : Time)
      → Handles enabled_at event (
          asked level
          ∷ clock_read
          ∷ handled (record {
            time = time;
            level = level;
            message = ascii "sqlguard validation";
            attrs =
                (ascii "mode", ascii "enforce")
                ∷ (ascii "outcome", name)
                ∷ (ascii "rule_id", event.rule_id)
                ∷ [];
          })
          ∷ [])

module _ {W Time : Type 0} (now : W → Time × W) (handler : Handler W Time)
    (enabled_at : Level → Bool) (rules : List (RegisteredRule (State W (HandlerCall Time))))
    (metrics : Interface (Metrics (State W (HandlerCall Time))))
    (kind handler_kind : ReflectKind) where
  abbrev slog_logger : Logger W Time
  slog_logger = record { handler = holds handler_kind false handler }

  -- An engine with this sink for its logger.
  abbrev pub logging_engine : Engine (State W (HandlerCall Time))
  logging_engine = record {
    rules = rules;
    metrics = metrics;
    logger = holds kind false (record { log_validation = log_validation now slog_logger });
  }

  -- The handler decides by the level alone, and the context, the rules and the metrics make no calls of it.
  pub record Apart (ctx : Context (State W (HandlerCall Time))) : Type 0 where
    pub enables :
        (level : Level) (w : W) → (handler.enabled level w).0 ≡ returned (enabled_at level)
    pub context_keeps : (w : State W (HandlerCall Time)) → (ctx.err w).1.trace ≡ w.trace
    pub rules_keep :
        (reg : RegisteredRule (State W (HandlerCall Time)))
        → In reg rules
        → (st : Statement) (w : State W (HandlerCall Time))
        → (answer_of ctx (reg, st) w).1.trace ≡ w.trace
    pub metrics_keep :
        (event : ValidationEvent) (s : State (State W (HandlerCall Time)) Call)
        → (emit_metrics metrics event s).1.world.trace ≡ s.world.trace

  abbrev Logs : ValidationEvent → List (HandlerCall Time) → List (HandlerCall Time) → Type 0
  Logs event calls calls' =
      (more : List (HandlerCall Time)) × (calls' ≡ calls ++ more) × Handles enabled_at event more

  -- A return has told the handler of one event, which describes the result. A panic has told it
  -- nothing.
  abbrev pub Logged :
      Context (State W (HandlerCall Time))
      → List (HandlerCall Time)
      → Outcome (Option GoError) × State (State W (HandlerCall Time)) Call
      → Type 0
  Logged ctx calls (returned result, s) =
      (event : ValidationEvent) × Describes ctx event result × Logs event calls s.world.trace
  Logged ctx calls (panicked, s) = s.world.trace ≡ calls
