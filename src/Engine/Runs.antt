-- ===== src/Engine/Runs.antt =====
-- The loops of `ValidatePrepared` in engine.go run the schedule.
use postgres_sqlguard.Common.{
  ◌≡◌, refl, sym, ◌∙◌, List, [], ◌∷◌, ◌++◌, map, append-nil, append_assoc, concat_map, Option, none,
  some, GoString, Bool-cases, inl, inr,
}
use postgres_sqlguard.Parser.Node.{Node}
use postgres_sqlguard.Statement.{Statement, new_statement}
use postgres_sqlguard.Rule.{RuleResult, rejected}
use postgres_sqlguard.Errors.{GoError, new_violation}
use postgres_sqlguard.Observability.{
  ValidationEvent, ValidationOutcome, enforce, new_validation_event, allowed, policy_violation,
  canceled,
}
use postgres_sqlguard.Runtime.{
  Outcome, returned, panicked, State, Go, continue, ◌>>=◌, perform, recovering,
}
use postgres_sqlguard.Interface.{Interface, nil_interface, holds}
use postgres_sqlguard.Contracts.{
  Call, err_read, evaluated, Context, Metrics, Logger, RegisteredRule, Engine, Flow, return,
}
use postgres_sqlguard.Engine.{
  emit_metrics, emit_logger, finish_validation, return_finish, after_evaluate, after_err, run_rules,
  after_rules, run_statements,
}
use postgres_sqlguard.Engine.Schedule.{
  Round, schedule, metrics_calls, logger_calls, sink_calls, terminal_calls, answer_of, Run,
  finished, passed, violated, stopped, err_panic, rule_panic,
}

append_two :
    (t : List Call) (a b : Call) (c : List Call) → ((t ++ a ∷ []) ++ b ∷ []) ++ c ≡ t ++ a ∷ b ∷ c
append_two t a b c = append_assoc (t ++ a ∷ []) (b ∷ []) c ∙ append_assoc t (a ∷ []) (b ∷ c)

module _ {W : Type 0} where
  -- `m` returns `a` and makes these calls.
  pub record Says {A : Type 0} (r : Outcome A × State W Call) (s : State W Call) (o : Outcome A)
      (calls : List Call) : Type 0 where
    pub outcome : r.0 ≡ o
    pub trace : r.1.trace ≡ s.trace ++ calls

  emit_metrics-called :
      (m : Interface (Metrics W)) (event : ValidationEvent) (s : State W Call)
      → (w : W) × (emit_metrics m event s
          ≡ (returned tt, record { world = w; trace = s.trace ++ metrics_calls m event }))
  unfolding emit_metrics recovering perform
  emit_metrics-called nil_interface event s =
      (s.world, λ i. (returned tt, record { world = s.world; trace = sym (append-nil s.trace) i }))
  emit_metrics-called (holds k n m) event s = ((m.record_validation event s.world).1, refl)

  emit_logger-called :
      (l : Interface (Logger W)) (event : ValidationEvent) (s : State W Call)
      → (w : W) × (emit_logger l event s
          ≡ (returned tt, record { world = w; trace = s.trace ++ logger_calls l event }))
  unfolding emit_logger recovering perform
  emit_logger-called nil_interface event s =
      (s.world, λ i. (returned tt, record { world = s.world; trace = sym (append-nil s.trace) i }))
  emit_logger-called (holds k n l) event s = ((l.log_validation event s.world).1, refl)

  -- Whatever the sinks do, `finishValidation` returns the result that it was given, and hands the
  -- event to each enabled sink once.
  pub finish_validation-Says :
      (e : Engine W) (o : ValidationOutcome) (id : GoString) (r : Option GoError) (s : State W Call)
      → Says (finish_validation e o id r s) s (returned r) (terminal_calls e o id)
  finish_validation-Says e o id r s =
      let event = new_validation_event enforce o id in
      let (w, metrics) = emit_metrics-called e.metrics event s in
      let (w', logger) =
        emit_logger-called e.logger event
          (record { world = w; trace = s.trace ++ metrics_calls e.metrics event }) in
      unfold finish_validation sink_calls in
      record {
        outcome = rw (metrics, logger) refl;
        trace =
            rw (metrics, logger)
              (append_assoc s.trace (metrics_calls e.metrics event) (logger_calls e.logger event));
      }

  -- A `return` of a finished validation leaves both loops.
  returned-after_rules :
      (f : Outcome (Option GoError) × State W Call) (k : Go W Call (Option GoError))
      (r : Option GoError) (s : State W Call) (calls : List Call)
      → Says f s (returned r) calls
      → Says
          (continue (continue f (λ result s'. (returned (return result), s'))) (after_rules k))
          s
          (returned r)
          calls
  unfolding after_rules
  returned-after_rules (returned x, s') k r s calls h = record {
    outcome = h.outcome;
    trace = h.trace;
  }
  returned-after_rules (panicked, s') k r s calls h = cc (h.outcome)

  return_finish-Says :
      (e : Engine W) (o : ValidationOutcome) (id : GoString) (r : Option GoError)
      (k : Go W Call (Option GoError)) (s : State W Call)
      → Says
          (continue (return_finish e o id r s) (after_rules k))
          s
          (returned r)
          (terminal_calls e o id)
  unfolding return_finish
  return_finish-Says e o id r k s =
      returned-after_rules _ k r s _ (finish_validation-Says e o id r s)

  -- A result is a run of the rounds from a state.
  abbrev pub RunsFrom :
      Engine W
      → Context W
      → List (Round W)
      → State W Call
      → Outcome (Option GoError) × State W Call
      → Type 0
  RunsFrom e ctx rounds s r =
      (calls : List Call) × (r.1.trace ≡ s.trace ++ calls) × Run e ctx rounds s.world calls r.0

  abbrev pub Runs : Engine W → Context W → List (Round W) → Go W Call (Option GoError) → Type 0
  Runs e ctx rounds m = (s : State W Call) → RunsFrom e ctx rounds s (m s)

  finished-Runs :
      (e : Engine W) (ctx : Context W) → Runs e ctx [] (finish_validation e allowed [] none)
  finished-Runs e ctx s =
      let says = finish_validation-Says e allowed [] none s in
      (terminal_calls e allowed [], says.trace, rw says.outcome finished)

  module _ (e : Engine W) (ctx : Context W) (reg : RegisteredRule W) (st : Statement)
      (rest : Go W Call Flow) (k : Go W Call (Option GoError)) (rounds : List (Round W))
      (runs : Runs e ctx rounds (rest >>= after_rules k)) (s : State W Call) where
    abbrev noted : W → List Call → State W Call
    noted w calls = record { world = w; trace = s.trace ++ calls }

    module _ {w : W} (live : ctx.err s.world ≡ (returned none, w)) where
      abbrev asked : W → State W Call
      asked w' = record {
        world = w';
        trace = (s.trace ++ err_read ∷ []) ++ evaluated reg.rule_id st ∷ [];
      }

      after_answer :
          (answer : RuleResult) (w' : W)
          → answer_of ctx (reg, st) w ≡ (returned answer, w')
          → RunsFrom e ctx
              ((reg, st) ∷ rounds)
              s
              (continue (after_evaluate e reg rest answer (asked w')) (after_rules k))
      unfolding after_evaluate
      after_answer answer w' eq = elim (Bool-cases (rejected answer)) [
        | inl denied ↦
            let says =
              return_finish-Says e policy_violation reg.rule_id (some (new_violation reg.rule_id)) k
                (asked w') in
            rw denied (
              err_read ∷ evaluated reg.rule_id st ∷ terminal_calls e policy_violation reg.rule_id,
              says.trace ∙ append_two s.trace _ _ _,
              rw says.outcome (violated live eq denied),
            )
        | inr granted ↦
            let (calls, trace, run) = runs (asked w') in
            rw granted (
              err_read ∷ evaluated reg.rule_id st ∷ calls,
              trace ∙ append_two s.trace _ _ _,
              passed live eq granted run,
            )
      ]

      after_live :
          (p : Outcome RuleResult × W)
          → answer_of ctx (reg, st) w ≡ p
          → RunsFrom e ctx
              ((reg, st) ∷ rounds)
              s
              (continue (continue (p.0, asked p.1) (after_evaluate e reg rest)) (after_rules k))
      after_live (returned answer, w') eq = after_answer answer w' eq
      after_live (panicked, w') eq = (
        err_read ∷ evaluated reg.rule_id st ∷ [],
        append_assoc s.trace (err_read ∷ []) (evaluated reg.rule_id st ∷ []),
        rule_panic live eq,
      )

    after_look :
        (p : Outcome (Option GoError) × W)
        → ctx.err s.world ≡ p
        → RunsFrom e ctx ((reg, st) ∷ rounds) s (
            continue
              (continue (p.0, noted p.1 (err_read ∷ [])) (after_err e ctx st reg rest))
              (after_rules k))
    unfolding after_err perform
    after_look (panicked, w) eq = (err_read ∷ [], refl, err_panic eq)
    after_look (returned (some err), w) eq =
        let says = return_finish-Says e canceled [] (some err) k (noted w (err_read ∷ [])) in
        (
          err_read ∷ terminal_calls e canceled [],
          says.trace ∙ append_assoc s.trace (err_read ∷ []) _,
          rw says.outcome (stopped eq),
        )
    after_look (returned none, w) eq = after_live eq (answer_of ctx (reg, st) w) refl

    first_round : RunsFrom e ctx ((reg, st) ∷ rounds) s (
        continue
          (continue (perform err_read ctx.err s) (after_err e ctx st reg rest))
          (after_rules k))
    unfolding perform
    first_round = after_look (ctx.err s.world) refl

  module _ (e : Engine W) (ctx : Context W) where
    rules-Runs :
        (st : Statement) (k : Go W Call (Option GoError)) (rounds : List (Round W))
        → Runs e ctx rounds k
        → (regs : List (RegisteredRule W))
        → Runs e ctx (map (λ r. (r, st)) regs ++ rounds) (run_rules e ctx st regs >>= after_rules k)
    unfolding run_rules
    rules-Runs st k rounds runs [] = unfold after_rules in runs
    rules-Runs st k rounds runs (reg ∷ regs) =
        first_round e ctx reg st (run_rules e ctx st regs) k (map (λ r. (r, st)) regs ++ rounds)
          (rules-Runs st k rounds runs regs)

    -- From every state, the loops over the statements and the rules are a run of the schedule.
    pub run_statements-Runs :
        (roots : List Node) → Runs e ctx (schedule e.rules roots) (run_statements e ctx roots)
    unfolding run_statements schedule concat_map
    run_statements-Runs [] = finished-Runs e ctx
    run_statements-Runs (root ∷ roots) =
        rules-Runs (new_statement (some root)) (run_statements e ctx roots) (schedule e.rules roots)
          (run_statements-Runs roots) e.rules
