-- ===== src/Slog.antt =====
-- pkg/observability/slog/slog.go: a logger sink over a handler of log/slog.
pub mod Logged
use postgres_sqlguard.Common.{
  ℕ, Bool, true, false, List, [], ◌∷◌, Option, none, some, GoString, ascii, ℤ, pos, negsuc,
  if◌then◌else◌,
}
use postgres_sqlguard.Errors.{GoError, errors_new}
use postgres_sqlguard.Observability.{
  ValidationOutcome, ValidationEvent, allowed, policy_violation, parser_failure, canceled,
  invalid_prepared, mode_label, outcome_label,
}
use postgres_sqlguard.Runtime.{Action, returned, Go, pure, ◌>>=◌, perform, continue}
use postgres_sqlguard.Interface.{Interface, invoke}

abbrev pub err_nil_logger : GoError
err_nil_logger = errors_new (ascii "sqlguard slog: logger must not be nil")

-- `stdslog.Level`: its values that the code names.
pub data Level : Type 0 where
  level_debug level_info level_error : Level

-- `stdslog.Record`, whose attributes are all strings here.
pub record Record (Time : Type 0) : Type 0 where
  pub time : Time
  pub level : Level
  pub message : GoString
  pub attrs : List (GoString × GoString)

-- `stdslog.Handler`, with the background context left out, and `time.Now`.
pub record Handler (W Time : Type 0) : Type 0 where
  pub enabled : Level → Action W Bool
  pub handle : Record Time → Action W (Option GoError)

pub data HandlerCall (Time : Type 0) : Type 0 where
  asked : Level → HandlerCall Time
  clock_read : HandlerCall Time
  handled : Record Time → HandlerCall Time

pub record Logger (W Time : Type 0) : Type 0 where
  pub handler : Interface (Handler W Time)

-- The results of `New`.
pub data NewLogger (W Time : Type 0) : Type 0 where
  built : Logger W Time → NewLogger W Time
  refused : GoError → NewLogger W Time

-- `New` of a `*stdslog.Logger`: nil, or a logger with its handler.
unfoldable pub new : {W Time : Type 0} → Option (Interface (Handler W Time)) → NewLogger W Time
new none = refused err_nil_logger
new (some handler) = built (record { handler = handler })

-- `validationLevel`
unfoldable pub validation_level : ValidationOutcome → Level
validation_level policy_violation = level_error
validation_level parser_failure = level_error
validation_level invalid_prepared = level_error
validation_level canceled = level_debug
validation_level allowed = level_info

unfoldable pub attrs_of : ValidationEvent → List (GoString × GoString)
attrs_of event =
    (ascii "mode", mode_label event.mode)
    ∷ (ascii "outcome", outcome_label event.outcome)
    ∷ (ascii "rule_id", event.rule_id)
    ∷ []

-- The record of an event, with the time of the call.
unfoldable pub record_of : {Time : Type 0} → ValidationEvent → Time → Record Time
unfolding attrs_of validation_level
record_of event time = record {
  time = time;
  level = validation_level event.outcome;
  message = ascii "sqlguard validation";
  attrs = attrs_of event;
}

module _ {W Time : Type 0} (now : W → Time × W) where
  -- `LogValidation` after `Enabled`.
  unfoldable pub after_enabled :
      Logger W Time → ValidationEvent → Bool → Go W (HandlerCall Time) (Option GoError)
  unfolding perform record_of
  after_enabled l event false = pure none
  after_enabled l event true = do
    time ← perform clock_read (λ w. let (t, w') = now w in (returned t, w'))
    perform (handled (record_of event time))
        (invoke l.handler (λ h. h.handle (record_of event time)))

  -- `LogValidation`
  unfoldable pub log_validation :
      Logger W Time → ValidationEvent → Go W (HandlerCall Time) (Option GoError)
  unfolding perform after_enabled
  log_validation l event = do
    enabled ←
        perform (asked (validation_level event.outcome))
          (invoke l.handler (λ h. h.enabled (validation_level event.outcome)))
    after_enabled l event enabled
