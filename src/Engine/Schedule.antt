-- ===== src/Engine/Schedule.antt =====
-- What `ValidatePrepared` of engine.go is to do, over one flat list of rule evaluations.
use postgres_sqlguard.Common.{
  ◌≡◌, true, false, List, [], ◌∷◌, ◌++◌, map, concat_map, Option, none, some, GoString,
}
use postgres_sqlguard.Parser.Node.{Node}
use postgres_sqlguard.Statement.{Statement, new_statement}
use postgres_sqlguard.Rule.{RuleResult, rejected}
use postgres_sqlguard.Errors.{GoError, new_violation}
use postgres_sqlguard.Observability.{
  ValidationEvent, ValidationOutcome, enforce, new_validation_event, allowed, policy_violation,
  canceled,
}
use postgres_sqlguard.Runtime.{Outcome, returned, panicked}
use postgres_sqlguard.Interface.{Interface, nil_interface, holds, invoke}
use postgres_sqlguard.Contracts.{
  Call, err_read, evaluated, recorded, logged, Context, Metrics, Logger, RegisteredRule, Engine,
}

-- One evaluation of a rule.
abbrev pub Round : Type 0 → Type 0
Round W = RegisteredRule W × Statement

module _ {W : Type 0} where
  abbrev pub rounds_of : List (RegisteredRule W) → Node → List (Round W)
  rounds_of rules root = map (λ r. (r, new_statement (some root))) rules

  -- Statements in order, and for each of them the rules in registration order.
  unfoldable pub schedule : List (RegisteredRule W) → List Node → List (Round W)
  schedule rules roots = concat_map (rounds_of rules) roots

  abbrev pub metrics_calls : Interface (Metrics W) → ValidationEvent → List Call
  metrics_calls nil_interface event = []
  metrics_calls (holds kind is_nil m) event = recorded event ∷ []

  abbrev pub logger_calls : Interface (Logger W) → ValidationEvent → List Call
  logger_calls nil_interface event = []
  logger_calls (holds kind is_nil l) event = logged event ∷ []

  -- The terminal event goes to the enabled sinks, metrics first.
  unfoldable pub sink_calls : Engine W → ValidationEvent → List Call
  sink_calls e event = metrics_calls e.metrics event ++ logger_calls e.logger event

  abbrev pub terminal_calls : Engine W → ValidationOutcome → GoString → List Call
  terminal_calls e outcome rule_id = sink_calls e (new_validation_event enforce outcome rule_id)

  abbrev pub answer_of : Context W → Round W → W → Outcome RuleResult × W
  answer_of ctx (registration, statement) = invoke registration.rule (λ r. r.evaluate ctx statement)

  -- `Run e ctx rounds w calls outcome`: from the world `w`, the rounds make these calls and end so.
  pub data Run (e : Engine W) (ctx : Context W)
      : List (Round W) → W → List Call → Outcome (Option GoError) → Type 0 where
    -- No round is left: allowed.
    finished : {w : W} → Run e ctx [] w (terminal_calls e allowed []) (returned none)
    -- The context is live and the rule allows: on to the next round.
    passed :
        {w w' w'' : W} {reg : RegisteredRule W} {st : Statement} {rounds : List (Round W)}
        {answer : RuleResult} {calls : List Call} {o : Outcome (Option GoError)}
        → ctx.err w ≡ (returned none, w')
        → answer_of ctx (reg, st) w' ≡ (returned answer, w'')
        → rejected answer ≡ false
        → Run e ctx rounds w'' calls o
        → Run e ctx ((reg, st) ∷ rounds) w (err_read ∷ evaluated reg.rule_id st ∷ calls) o
    -- The rule rejects: a violation with the registered identifier.
    violated :
        {w w' w'' : W} {reg : RegisteredRule W} {st : Statement} {rounds : List (Round W)}
        {answer : RuleResult}
        → ctx.err w ≡ (returned none, w')
        → answer_of ctx (reg, st) w' ≡ (returned answer, w'')
        → rejected answer ≡ true
        → Run e ctx
            ((reg, st) ∷ rounds)
            w
            (err_read ∷ evaluated reg.rule_id st ∷ terminal_calls e policy_violation reg.rule_id)
            (returned (some (new_violation reg.rule_id)))
    -- The context has ended before the rule is asked.
    stopped :
        {w w' : W} {round : Round W} {rounds : List (Round W)} {err : GoError}
        → ctx.err w ≡ (returned (some err), w')
        → Run e ctx
            (round ∷ rounds)
            w
            (err_read ∷ terminal_calls e canceled [])
            (returned (some err))
    -- A panic of the context or of a rule passes through, with no event.
    err_panic :
        {w w' : W} {round : Round W} {rounds : List (Round W)}
        → ctx.err w ≡ (panicked, w')
        → Run e ctx (round ∷ rounds) w (err_read ∷ []) panicked
    rule_panic :
        {w w' w'' : W} {reg : RegisteredRule W} {st : Statement} {rounds : List (Round W)}
        → ctx.err w ≡ (returned none, w')
        → answer_of ctx (reg, st) w' ≡ (panicked, w'')
        → Run e ctx ((reg, st) ∷ rounds) w (err_read ∷ evaluated reg.rule_id st ∷ []) panicked
