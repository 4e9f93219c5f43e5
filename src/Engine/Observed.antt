-- ===== src/Engine/Observed.antt =====
-- engine.go: what a call does to a part of the world that only the sinks change.
pub mod Validations
use postgres_sqlguard.Common.{
  ℕ, suc, ◌+◌, ◌≡◌, refl, sym, ap, ◌∙◌, subst, Bool, true, false, Bool-cases, inl, inr,
  if◌then◌else◌, List, [], ◌∷◌, map, length, Option, none, some, GoString, ascii, In, here, there,
  arith,
}
use postgres_sqlguard.Parser.Node.{Node}
use postgres_sqlguard.Parser.Result.{Result}
use postgres_sqlguard.Parser.Protobuf.{Backend}
use postgres_sqlguard.Parser.Convert.{ParseOutcome, parsed, failed, parse}
use postgres_sqlguard.Parser.Traversal.{statement_sequence}
use postgres_sqlguard.Statement.{Statement, new_statement}
use postgres_sqlguard.Rule.{RuleResult, rejected}
use postgres_sqlguard.Errors.{
  GoError, parser_error, new_violation, translate_parser_error, err_invalid_prepared,
}
use postgres_sqlguard.Observability.{
  ValidationEvent, ValidationMode, ValidationOutcome, mode_label, outcome_label, enforce,
  new_validation_event, allowed, policy_violation, parser_failure, canceled, invalid_prepared,
}
use postgres_sqlguard.Runtime.{
  Outcome, returned, panicked, State, Go, pure, ◌>>=◌, continue, perform, recovering,
}
use postgres_sqlguard.Interface.{Interface, nil_interface, holds, invoke}
use postgres_sqlguard.Contracts.{
  Call, err_read, evaluated, parsed_sql, Context, Metrics, Logger, RegisteredRule, Engine, Prepared,
  zero_prepared, Flow, next, return,
}
use postgres_sqlguard.Engine.{
  emit_metrics, emit_logger, finish_validation, fail_prepare, conclude_prepare, parse_prepare,
  prepare, return_finish, after_evaluate, after_err, run_rules, after_rules, run_statements,
  validate_result, validate_prepared, validate_after, validate,
}
use postgres_sqlguard.Engine.Schedule.{answer_of}
use postgres_sqlguard.Engine.Events.{
  Describes, is_allowed, is_violation, is_parse_failure, is_canceled, is_invalid_prepared,
}

abbrev pub event_of : ValidationOutcome → GoString → ValidationEvent
event_of outcome rule_id = record { mode = enforce; outcome = outcome; rule_id = rule_id }

-- The events that an engine can report: four, and a violation for each rule.
abbrev pub event_space : {W : Type 0} → Engine W → List ValidationEvent
event_space e =
    event_of allowed []
    ∷ event_of parser_failure []
    ∷ event_of canceled []
    ∷ event_of invalid_prepared []
    ∷ map (λ reg. event_of policy_violation reg.rule_id) e.rules

-- The name that an outcome is to be shown with.
pub data IsNamed : ValidationOutcome → GoString → Type 0 where
  named_allowed : IsNamed allowed (ascii "allowed")
  named_violation : IsNamed policy_violation (ascii "policy_violation")
  named_parser_failure : IsNamed parser_failure (ascii "parser_failure")
  named_canceled : IsNamed canceled (ascii "canceled")
  named_invalid_prepared : IsNamed invalid_prepared (ascii "invalid_prepared")

pub outcome_label-IsNamed : (outcome : ValidationOutcome) → IsNamed outcome (outcome_label outcome)
unfolding outcome_label
outcome_label-IsNamed allowed = named_allowed
outcome_label-IsNamed policy_violation = named_violation
outcome_label-IsNamed parser_failure = named_parser_failure
outcome_label-IsNamed canceled = named_canceled
outcome_label-IsNamed invalid_prepared = named_invalid_prepared

pub IsNamed-label :
    {outcome : ValidationOutcome} {name : GoString}
    → IsNamed outcome name
    → name ≡ outcome_label outcome
unfolding outcome_label
IsNamed-label named_allowed = refl
IsNamed-label named_violation = refl
IsNamed-label named_parser_failure = refl
IsNamed-label named_canceled = refl
IsNamed-label named_invalid_prepared = refl

pub mode_label-enforce : (mode : ValidationMode) → mode_label mode ≡ ascii "enforce"
unfolding mode_label
mode_label-enforce enforce = refl

-- `f` is a part of the world that the context and the rules leave alone, and that the two sinks
-- change as `R` says for each event, whatever they return.
pub record Observes {W X : Type 0} (e : Engine W) (ctx : Context W) (f : W → X)
    (R : ValidationEvent → X → X → Type 0) : Type 0 where
  pub context_keeps : (w : W) → f (ctx.err w).1 ≡ f w
  pub rules_keep :
      (reg : RegisteredRule W)
      → In reg e.rules
      → (st : Statement) (w : W) → f (answer_of ctx (reg, st) w).1 ≡ f w
  pub sinks_add :
      (event : ValidationEvent) (s : State W Call)
      → R event
          (f s.world)
          (f (emit_logger e.logger event (emit_metrics e.metrics event s).1).1.world)

module _ {W X : Type 0} (e : Engine W) (ctx : Context W) (f : W → X)
    (R : ValidationEvent → X → X → Type 0) where
  -- A return has added one event of the engine's that describes the result; a panic has added none.
  abbrev pub Added : X → Outcome (Option GoError) × State W Call → Type 0
  Added x (returned result, s) =
      (event : ValidationEvent) × In event (event_space e)
      × Describes ctx event result
      × R event x (f s.world)
  Added x (panicked, s) = f s.world ≡ x

  -- The same of a loop that goes on when nothing was added.
  abbrev FlowAdded : X → Outcome Flow × State W Call → Type 0
  FlowAdded x (returned next, s) = f s.world ≡ x
  FlowAdded x (returned (return result), s) = Added x (returned result, s)
  FlowAdded x (panicked, s) = f s.world ≡ x

  module _ (o : Observes e ctx f R) where
    emit_metrics-returns :
        (m : Interface (Metrics W)) (event : ValidationEvent) (s : State W Call)
        → emit_metrics m event s ≡ (returned tt, (emit_metrics m event s).1)
    unfolding emit_metrics recovering
    emit_metrics-returns nil_interface event s = refl
    emit_metrics-returns (holds kind n m) event s = refl

    emit_logger-returns :
        (l : Interface (Logger W)) (event : ValidationEvent) (s : State W Call)
        → emit_logger l event s ≡ (returned tt, (emit_logger l event s).1)
    unfolding emit_logger recovering
    emit_logger-returns nil_interface event s = refl
    emit_logger-returns (holds kind n l) event s = refl

    finish_validation-Added :
        (outcome : ValidationOutcome) (rule_id : GoString) (result : Option GoError)
        (s : State W Call)
        → In (new_validation_event enforce outcome rule_id) (event_space e)
        → Describes ctx (new_validation_event enforce outcome rule_id) result
        → Added (f s.world) (finish_validation e outcome rule_id result s)
    unfolding finish_validation
    finish_validation-Added outcome rule_id result s at says =
        let event = new_validation_event enforce outcome rule_id in
        rw
          (
            emit_metrics-returns e.metrics event s,
            emit_logger-returns e.logger event (emit_metrics e.metrics event s).1,
          )
          (event, at, says, o.sinks_add event s)

    -- The same from a state whose part is known.
    pub terminal-Added :
        (outcome : ValidationOutcome) (rule_id : GoString) (result : Option GoError) (x : X)
        (s : State W Call)
        → f s.world ≡ x
        → In (new_validation_event enforce outcome rule_id) (event_space e)
        → Describes ctx (new_validation_event enforce outcome rule_id) result
        → Added x (finish_validation e outcome rule_id result s)
    terminal-Added outcome rule_id result x s same at says =
        subst (λ y. Added y (finish_validation e outcome rule_id result s)) same
          (finish_validation-Added outcome rule_id result s at says)

    -- A result handed on.
    handed_on :
        (x : X) (r : Outcome (Option GoError) × State W Call)
        → Added x r
        → FlowAdded x (continue r (λ result. pure (return result)))
    handed_on x (returned result, s) h = h
    handed_on x (panicked, s) h = h

    return_finish-FlowAdded :
        (outcome : ValidationOutcome) (rule_id : GoString) (result : Option GoError) (x : X)
        (s : State W Call)
        → f s.world ≡ x
        → In (new_validation_event enforce outcome rule_id) (event_space e)
        → Describes ctx (new_validation_event enforce outcome rule_id) result
        → FlowAdded x (return_finish e outcome rule_id result s)
    unfolding return_finish
    return_finish-FlowAdded outcome rule_id result x s same at says =
        handed_on x (finish_validation e outcome rule_id result s)
          (terminal-Added outcome rule_id result x s same at says)

    In-violations :
        {reg : RegisteredRule W} {regs : List (RegisteredRule W)}
        → In reg regs
        → In
            (event_of policy_violation reg.rule_id)
            (map (λ reg. event_of policy_violation reg.rule_id) regs)
    In-violations (here e) = here (ap (λ reg. event_of policy_violation reg.rule_id) e)
    In-violations (there at) = there (In-violations at)

    module _ (x : X) (statement : Statement) (reg : RegisteredRule W) (registered : In reg e.rules)
        (rest : Go W Call Flow)
        (rest-FlowAdded : (s : State W Call) → f s.world ≡ x → FlowAdded x (rest s)) where
      evaluated-FlowAdded :
          (r : Outcome RuleResult × State W Call)
          → f r.1.world ≡ x
          → FlowAdded x (continue r (after_evaluate e reg rest))
      unfolding after_evaluate new_validation_event new_violation
      evaluated-FlowAdded (panicked, s) same = same
      evaluated-FlowAdded (returned answer, s) same = elim (Bool-cases (rejected answer)) [
        | inl denied ↦ rw denied (
            return_finish-FlowAdded policy_violation reg.rule_id _ x s same
              (there (there (there (there (In-violations registered))))) (is_violation reg.rule_id))
        | inr granted ↦ rw granted (rest-FlowAdded s same)
      ]

      looked-FlowAdded :
          (w : W) (r : Outcome (Option GoError) × State W Call)
          → (ctx.err w).0 ≡ r.0
          → f r.1.world ≡ x
          → FlowAdded x (continue r (after_err e ctx statement reg rest))
      unfolding after_err new_validation_event perform
      looked-FlowAdded w (panicked, s) answered same = same
      looked-FlowAdded w (returned (some err), s) answered same =
          return_finish-FlowAdded canceled [] (some err) x s same (there (there (here refl)))
            (is_canceled answered)
      looked-FlowAdded w (returned none, s) answered same =
          evaluated-FlowAdded _ (o.rules_keep reg registered statement s.world ∙ same)

    run_rules-FlowAdded :
        (x : X) (statement : Statement) (regs : List (RegisteredRule W))
        → ((reg : RegisteredRule W) → In reg regs → In reg e.rules)
        → (s : State W Call) → f s.world ≡ x
        → FlowAdded x (run_rules e ctx statement regs s)
    unfolding run_rules perform
    run_rules-FlowAdded x statement [] registered s same = same
    run_rules-FlowAdded x statement (reg ∷ regs) registered s same =
        looked-FlowAdded x statement reg (registered reg (here refl))
          (run_rules e ctx statement regs)
          (run_rules-FlowAdded x statement regs (λ r at. registered r (there at))) s.world _ refl
          (o.context_keeps s.world ∙ same)

    after_rules-Added :
        (x : X) (rest : Go W Call (Option GoError))
        → ((s : State W Call) → f s.world ≡ x → Added x (rest s))
        → (r : Outcome Flow × State W Call) → FlowAdded x r
        → Added x (continue r (after_rules rest))
    unfolding after_rules
    after_rules-Added x rest h (panicked, s) added = added
    after_rules-Added x rest h (returned next, s) added = h s added
    after_rules-Added x rest h (returned (return result), s) added = added

    pub run_statements-Added :
        (x : X) (roots : List Node) (s : State W Call)
        → f s.world ≡ x
        → Added x (run_statements e ctx roots s)
    unfolding run_statements new_validation_event
    run_statements-Added x [] s same =
        terminal-Added allowed [] none x s same (here refl) is_allowed
    run_statements-Added x (root ∷ roots) s same =
        after_rules-Added x (run_statements e ctx roots) (run_statements-Added x roots) _
          (run_rules-FlowAdded x (new_statement (some root)) e.rules (λ reg at. at) s same)
