-- ===== src/Engine.antt =====
-- engine.go: preparing and validating.
-- `Go W Call` runs over the world `W` of the caller's context, rules and sinks, and notes each
-- call of them.
pub mod Construct
pub mod Schedule
pub mod Runs
pub mod Session
pub mod Refines
pub mod Events
pub mod Evaluations
pub mod Verdicts
pub mod Policy
pub mod Guarantee
pub mod Preparation
pub mod Observed
pub mod Messages
use postgres_sqlguard.Common.{
  Bool, true, false, List, [], ◌∷◌, Option, none, some, GoString, if◌then◌else◌,
}
use postgres_sqlguard.Parser.Node.{Node}
use postgres_sqlguard.Parser.Result.{Result}
use postgres_sqlguard.Parser.Protobuf.{Backend}
use postgres_sqlguard.Parser.Convert.{ParseOutcome, parsed, failed, parse}
use postgres_sqlguard.Parser.Traversal.{statement_sequence}
use postgres_sqlguard.Statement.{Statement, new_statement}
use postgres_sqlguard.Rule.{RuleResult, rejected}
use postgres_sqlguard.Errors.{
  GoError, parser_error, new_violation, translate_parser_error, err_invalid_prepared,
}
use postgres_sqlguard.Observability.{
  ValidationOutcome, ValidationEvent, enforce, new_validation_event, allowed, policy_violation,
  parser_failure, canceled, invalid_prepared,
}
use postgres_sqlguard.Runtime.{
  Action, Go, State, returned, pure, ◌>>=◌, ◌>>◌, perform, recovering, continue,
}
use postgres_sqlguard.Contracts.{
  Call, err_read, parsed_sql, evaluated, recorded, logged, Context, Rule, Metrics, Logger,
  RegisteredRule, Engine, Prepared, zero_prepared, Flow, next, return,
}
use postgres_sqlguard.Interface.{Interface, nil_interface, holds, invoke}

module _ {W : Type 0} where
  -- The two sinks: skipped if nil, and contained by `isolateObservabilityFailure`.
  unfoldable pub emit_metrics : Interface (Metrics W) → ValidationEvent → Go W Call (Unit {0})
  emit_metrics nil_interface event = pure tt
  emit_metrics (holds kind is_nil metrics) event =
      recovering (perform (recorded event) (metrics.record_validation event))

  unfoldable pub emit_logger : Interface (Logger W) → ValidationEvent → Go W Call (Unit {0})
  emit_logger nil_interface event = pure tt
  emit_logger (holds kind is_nil logger) event =
      recovering (perform (logged event) (logger.log_validation event))

  -- `finishValidation`
  unfoldable pub finish_validation :
      Engine W → ValidationOutcome → GoString → Option GoError → Go W Call (Option GoError)
  unfolding emit_metrics emit_logger recovering perform
  finish_validation e outcome rule_id result = do
    let event = new_validation_event enforce outcome rule_id
    emit_metrics e.metrics event
    emit_logger e.logger event
    pure result

  -- A failing return of `Prepare`.
  unfoldable pub fail_prepare :
      Engine W → ValidationOutcome → Option GoError → Go W Call (Prepared × Option GoError)
  unfolding finish_validation
  fail_prepare e outcome err = do
    result ← finish_validation e outcome [] err
    pure (zero_prepared, result)

  -- `Prepare` after its second look at the context.
  unfoldable pub conclude_prepare :
      Engine W → ParseOutcome → Option GoError → Go W Call (Prepared × Option GoError)
  unfolding fail_prepare
  conclude_prepare e outcome (some err) = fail_prepare e canceled (some err)
  conclude_prepare e (failed parse_err) none =
      fail_prepare e parser_failure (translate_parser_error (some (parser_error (some parse_err))))
  conclude_prepare e (parsed result) none = pure (record { result = some result }, none)

  -- `Prepare` after its first look at the context.
  unfoldable pub parse_prepare :
      Backend
      → Engine W
      → Context W
      → GoString
      → Option GoError
      → Go W Call (Prepared × Option GoError)
  unfolding conclude_prepare perform
  parse_prepare backend e ctx sql (some err) = fail_prepare e canceled (some err)
  parse_prepare backend e ctx sql none = do
    outcome ← perform (parsed_sql sql) (λ w. (returned (parse backend sql), w))
    err ← perform err_read ctx.err
    conclude_prepare e outcome err

  -- `Prepare`
  unfoldable pub prepare :
      Backend → Engine W → Context W → GoString → Go W Call (Prepared × Option GoError)
  unfolding parse_prepare perform
  prepare backend e ctx sql = do err ← perform err_read ctx.err; parse_prepare backend e ctx sql err

  unfoldable pub return_finish :
      Engine W → ValidationOutcome → GoString → Option GoError → Go W Call Flow
  unfolding finish_validation
  return_finish e outcome rule_id err = do
    result ← finish_validation e outcome rule_id err
    pure (return result)

  -- What follows the look at the context in a round of the inner loop, and what follows the
  -- rule's answer; the rest of the loop is an argument.
  unfoldable pub after_evaluate :
      Engine W → RegisteredRule W → Go W Call Flow → RuleResult → Go W Call Flow
  unfolding return_finish
  after_evaluate e registration rest answer =
      if rejected answer
      then return_finish e policy_violation registration.rule_id
          (some (new_violation registration.rule_id))
      else rest

  unfoldable pub after_err :
      Engine W
      → Context W
      → Statement
      → RegisteredRule W
      → Go W Call Flow
      → Option GoError
      → Go W Call Flow
  unfolding after_evaluate perform
  after_err e ctx statement registration rest (some err) = return_finish e canceled [] (some err)
  after_err e ctx statement registration rest none = do
    answer ←
        perform (evaluated registration.rule_id statement)
          (invoke registration.rule (λ r. r.evaluate ctx statement))
    after_evaluate e registration rest answer

  -- The inner loop of `ValidatePrepared`.
  unfoldable pub run_rules :
      Engine W → Context W → Statement → List (RegisteredRule W) → Go W Call Flow
  unfolding after_err perform
  run_rules e ctx statement [] = pure next
  run_rules e ctx statement (registration ∷ registrations) = do
    err ← perform err_read ctx.err
    after_err e ctx statement registration (run_rules e ctx statement registrations) err

  -- Between two rounds of the outer loop.
  unfoldable pub after_rules : Go W Call (Option GoError) → Flow → Go W Call (Option GoError)
  after_rules rest (return result) = pure result
  after_rules rest next = rest

  -- The outer loop.
  unfoldable pub run_statements : Engine W → Context W → List Node → Go W Call (Option GoError)
  unfolding run_rules after_rules finish_validation
  run_statements e ctx [] = finish_validation e allowed [] none
  run_statements e ctx (root ∷ roots) = do
    flow ← run_rules e ctx (new_statement (some root)) e.rules
    after_rules (run_statements e ctx roots) flow

  unfoldable pub validate_result :
      Engine W → Context W → Option Result → Option GoError → Go W Call (Option GoError)
  unfolding run_statements
  validate_result e ctx result (some err) = finish_validation e canceled [] (some err)
  validate_result e ctx none none =
      finish_validation e invalid_prepared [] (some err_invalid_prepared)
  validate_result e ctx (some result) none = run_statements e ctx (statement_sequence (some result))

  -- `ValidatePrepared`
  unfoldable pub validate_prepared : Engine W → Context W → Prepared → Go W Call (Option GoError)
  unfolding validate_result perform
  validate_prepared e ctx prepared = do
    err ← perform err_read ctx.err
    validate_result e ctx prepared.result err

  unfoldable pub validate_after :
      Engine W → Context W → Prepared × Option GoError → Go W Call (Option GoError)
  unfolding validate_prepared
  validate_after e ctx (prepared, some err) = pure (some err)
  validate_after e ctx (prepared, none) = validate_prepared e ctx prepared

  -- `Validate`
  unfoldable pub validate : Backend → Engine W → Context W → GoString → Go W Call (Option GoError)
  unfolding prepare validate_after
  validate backend e ctx sql = do
    prepared ← prepare backend e ctx sql
    validate_after e ctx prepared
