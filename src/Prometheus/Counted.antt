-- ===== src/Prometheus/Counted.antt =====
-- An engine with the metrics sink of pkg/observability/prometheus/prometheus.go: what is counted.
use postgres_sqlguard.Common.{
  ◌≡◌, refl, sym, ap, ◌∙◌, subst, List, [], ◌∷◌, ◌++◌, append_assoc, map, length, Option, none,
  GoString, ascii, ◌⊎◌, In, In-append, inl, inr, here, there, false, suc, ◌+◌, arith,
}
use postgres_sqlguard.Parser.Protobuf.{Backend}
use postgres_sqlguard.Statement.{Statement}
use postgres_sqlguard.Errors.{GoError}
use postgres_sqlguard.Observability.{ValidationEvent, outcome_label, policy_violation}
use postgres_sqlguard.Runtime.{
  Outcome, returned, panicked, State, pure, ◌>>=◌, continue, perform, recovering,
}
use postgres_sqlguard.Interface.{Interface, holds, ReflectKind}
use postgres_sqlguard.Contracts.{Call, Context, Logger, RegisteredRule, Engine}
use postgres_sqlguard.Engine.{emit_metrics, emit_logger, validate}
use postgres_sqlguard.Engine.Schedule.{answer_of}
use postgres_sqlguard.Engine.Events.{Describes}
use postgres_sqlguard.Engine.Observed.{
  event_of, event_space, Observes, Added, IsNamed, IsNamed-label, outcome_label-IsNamed,
  mode_label-enforce,
}
use postgres_sqlguard.Engine.Observed.Validations.{validate-Added}
use postgres_sqlguard.Prometheus.{
  Client, ClientCall, selected, incremented, Counter, Metrics, label_values, record_validation,
}

-- The calls of the client for one event of a service: the counter of its labels is selected and
-- incremented, unless selecting it panics.
pub data Counts {W V : Type 0} (client : Client W V) (m : Metrics V) (event : ValidationEvent)
    : List (ClientCall V) → Type 0 where
  counted :
      {name : GoString}
      → IsNamed event.outcome name
      → Counts client m event (
          selected (m.service ∷ ascii "enforce" ∷ name ∷ event.rule_id ∷ [])
          ∷ incremented (m.service ∷ ascii "enforce" ∷ name ∷ event.rule_id ∷ [])
          ∷ [])
  unselected :
      {name : GoString} {w w' : W}
      → IsNamed event.outcome name
      → client.with_label_values m.validations
          (m.service ∷ ascii "enforce" ∷ name ∷ event.rule_id ∷ [])
          w
        ≡ (panicked, w')
      → Counts client m event
          (selected (m.service ∷ ascii "enforce" ∷ name ∷ event.rule_id ∷ []) ∷ [])

module _ {W V : Type 0} (client : Client W V) (m : Metrics V)
    (rules : List (RegisteredRule (State W (ClientCall V)))) (kind : ReflectKind)
    (logger : Interface (Logger (State W (ClientCall V)))) where
  -- An engine with this sink for its metrics.
  abbrev pub counting_engine : Engine (State W (ClientCall V))
  counting_engine = record {
    rules = rules;
    metrics = holds kind false (record { record_validation = record_validation client m });
    logger = logger;
  }

  -- A context, rules and a logger that make no calls of the client.
  pub record Apart (ctx : Context (State W (ClientCall V))) : Type 0 where
    pub context_keeps : (w : State W (ClientCall V)) → (ctx.err w).1.trace ≡ w.trace
    pub rules_keep :
        (reg : RegisteredRule (State W (ClientCall V)))
        → In reg rules
        → (st : Statement) (w : State W (ClientCall V))
        → (answer_of ctx (reg, st) w).1.trace ≡ w.trace
    pub logger_keeps :
        (event : ValidationEvent) (s : State (State W (ClientCall V)) Call)
        → (emit_logger logger event s).1.world.trace ≡ s.world.trace

  abbrev Adds : ValidationEvent → List (ClientCall V) → List (ClientCall V) → Type 0
  Adds event calls calls' =
      (more : List (ClientCall V)) × (calls' ≡ calls ++ more) × Counts client m event more

  -- A return has made the calls of one event, which describes the result; a panic has made none.
  abbrev pub Counted :
      Context (State W (ClientCall V))
      → List (ClientCall V)
      → Outcome (Option GoError) × State (State W (ClientCall V)) Call
      → Type 0
  Counted ctx calls (returned result, s) =
      (event : ValidationEvent) × Describes ctx event result × Adds event calls s.world.trace
  Counted ctx calls (panicked, s) = s.world.trace ≡ calls

  -- The labels of an event.
  label_values-IsNamed :
      (event : ValidationEvent)
      → label_values m event
        ≡ m.service ∷ ascii "enforce" ∷ outcome_label event.outcome ∷ event.rule_id ∷ []
  unfolding label_values
  label_values-IsNamed event = rw (mode_label-enforce event.mode) refl

  module _ (event : ValidationEvent) where
    abbrev expected_labels : List GoString
    expected_labels = m.service ∷ ascii "enforce" ∷ outcome_label event.outcome ∷ event.rule_id ∷ []

    selected-Adds :
        (s : State W (ClientCall V)) (r : Outcome (Counter W) × W)
        → client.with_label_values m.validations expected_labels s.world ≡ r
        → Adds event s.trace
            (continue {B = Option GoError}
              (r.0, record { world = r.1; trace = s.trace ++ selected expected_labels ∷ [] })
              (λ counter.
                perform (incremented expected_labels) (λ w. (returned tt, counter.inc w)) >>= λ _.
                pure none)).1.trace
    unfolding perform
    selected-Adds s (panicked, w) h = (_, refl, unselected (outcome_label-IsNamed event.outcome) h)
    selected-Adds s (returned counter, w) h =
        (_, append_assoc s.trace _ _, counted (outcome_label-IsNamed event.outcome))

    record_validation-Adds :
        (s : State W (ClientCall V))
        → Adds event s.trace (record_validation client m event s).1.trace
    unfolding record_validation perform
    record_validation-Adds s = rw (label_values-IsNamed event) (selected-Adds s _ refl)

  Apart-Observes :
      (ctx : Context (State W (ClientCall V)))
      → Apart ctx
      → Observes counting_engine ctx (λ w. w.trace) Adds
  unfolding emit_metrics recovering perform
  Apart-Observes ctx apart = record {
    context_keeps = apart.context_keeps;
    rules_keep = apart.rules_keep;
    sinks_add = λ event s.
        let (calls, same, counts) = record_validation-Adds event s.world in
        (calls, apart.logger_keeps event _ ∙ same, counts);
  }

  Added-Counted :
      (ctx : Context (State W (ClientCall V))) (calls : List (ClientCall V))
      (r : Outcome (Option GoError) × State (State W (ClientCall V)) Call)
      → Added counting_engine ctx (λ w. w.trace) Adds calls r
      → Counted ctx calls r
  Added-Counted ctx calls (returned result, s) (event, at, says, adds) = (event, says, adds)
  Added-Counted ctx calls (panicked, s) same = same

  -- Where the context, the rules and the logger make no calls of the client: a call of `Validate`
  -- that returns has selected one counter, once, and incremented it, once, unless selecting it
  -- panicked; its labels are the service, "enforce", the name of the outcome and the rule
  -- identifier of an event that describes the result. A call that panics has selected and
  -- incremented none.
  pub validate-Counted :
      (ctx : Context (State W (ClientCall V))) (backend : Backend) (sql : GoString)
      (s : State (State W (ClientCall V)) Call)
      → Apart ctx
      → Counted ctx s.world.trace (validate backend counting_engine ctx sql s)
  validate-Counted ctx backend sql s apart = Added-Counted ctx s.world.trace _ (
      validate-Added counting_engine ctx (λ w. w.trace) Adds (Apart-Observes ctx apart) backend sql
        s)

  -- Texts validated one after the other, whatever the results.
  unfoldable pub validate_all :
      Backend
      → Context (State W (ClientCall V))
      → State (State W (ClientCall V)) Call
      → List GoString
      → State (State W (ClientCall V)) Call
  validate_all backend ctx s [] = s
  validate_all backend ctx s (sql ∷ texts) =
      validate_all backend ctx (validate backend counting_engine ctx sql s).1 texts

  -- The labels of the counters that the engine can increment.
  abbrev pub counters : List (List GoString)
  counters = map (λ event. label_values m event) (event_space counting_engine)

  -- The labels that a call selects or increments.
  abbrev pub LabelsOf : ClientCall V → List GoString → Type 0
  LabelsOf call labels = (call ≡ selected labels) ⊎ (call ≡ incremented labels)

  abbrev Within : List (ClientCall V) → Type 0
  Within calls =
      (call : ClientCall V)
      → In call calls
      → (labels : List GoString) → LabelsOf call labels
      → In labels counters

  In-counters :
      {event : ValidationEvent} {events : List ValidationEvent}
      → In event events
      → In (label_values m event) (map (λ event. label_values m event) events)
  In-counters (here e) = here (ap (λ event. label_values m event) e)
  In-counters (there at) = there (In-counters at)

  -- The calls for an event have its labels.
  IsNamed-labels :
      (event : ValidationEvent) {name : GoString}
      → IsNamed event.outcome name
      → m.service ∷ ascii "enforce" ∷ name ∷ event.rule_id ∷ [] ≡ label_values m event
  IsNamed-labels event named =
      ap (λ name. m.service ∷ ascii "enforce" ∷ name ∷ event.rule_id ∷ []) (IsNamed-label named)
      ∙ sym (label_values-IsNamed event)

  LabelsOf-selected : {xs labels : List GoString} → LabelsOf (selected xs) labels → labels ≡ xs
  LabelsOf-selected (inl e) = cc (e)
  LabelsOf-selected (inr e) = absurd (cc (e))

  LabelsOf-incremented :
      {xs labels : List GoString} → LabelsOf (incremented xs) labels → labels ≡ xs
  LabelsOf-incremented (inl e) = absurd (cc (e))
  LabelsOf-incremented (inr e) = cc (e)

  Counts-labels :
      (event : ValidationEvent) {calls : List (ClientCall V)}
      → Counts client m event calls
      → (call : ClientCall V) → In call calls
      → (labels : List GoString) → LabelsOf call labels
      → labels ≡ label_values m event
  Counts-labels event (counted named) call (here e) labels at =
      LabelsOf-selected (subst (λ c. LabelsOf c labels) e at) ∙ IsNamed-labels event named
  Counts-labels event (counted named) call (there (here e)) labels at =
      LabelsOf-incremented (subst (λ c. LabelsOf c labels) e at) ∙ IsNamed-labels event named
  Counts-labels event (counted named) call (there (there absent)) labels at = elim absent [ ]
  Counts-labels event (unselected named h) call (here e) labels at =
      LabelsOf-selected (subst (λ c. LabelsOf c labels) e at) ∙ IsNamed-labels event named
  Counts-labels event (unselected named h) call (there absent) labels at = elim absent [ ]

  Added-Within :
      (ctx : Context (State W (ClientCall V))) (calls : List (ClientCall V))
      (r : Outcome (Option GoError) × State (State W (ClientCall V)) Call)
      → Added counting_engine ctx (λ w. w.trace) Adds calls r
      → Within calls
      → Within r.1.world.trace
  Added-Within ctx calls (returned result, s) (event, at, says, (more, same, counts)) within call
        found labels labelled =
      elim (In-append calls (subst (In call) same found)) [
        | inl before ↦ within call before labels labelled
        | inr after ↦
            subst (λ l. In l counters) (sym (Counts-labels event counts call after labels labelled))
              (In-counters at)
      ]
  Added-Within ctx calls (panicked, s) same within call found labels labelled =
      within call (subst (In call) same found) labels labelled

  validate_all-Within :
      (backend : Backend) (ctx : Context (State W (ClientCall V)))
      (s : State (State W (ClientCall V)) Call) (texts : List GoString)
      → Apart ctx
      → Within s.world.trace
      → Within (validate_all backend ctx s texts).world.trace
  unfolding validate_all
  validate_all-Within backend ctx s [] apart within = within
  validate_all-Within backend ctx s (sql ∷ texts) apart within =
      validate_all-Within backend ctx (validate backend counting_engine ctx sql s).1 texts apart (
        Added-Within ctx s.world.trace _
          (validate-Added counting_engine ctx (λ w. w.trace) Adds (Apart-Observes ctx apart) backend
            sql s)
          within)

  length-counters :
      (regs : List (RegisteredRule (State W (ClientCall V))))
      → length (
          map
            (λ event. label_values m event)
            (map (λ reg. event_of policy_violation reg.rule_id) regs))
        ≡ length regs
  length-counters [] = refl
  length-counters (reg ∷ regs) = ap suc (length-counters regs)

  -- Where the context, the rules and the logger make no calls of the client: however many texts
  -- are validated, the labels of every counter selected or incremented are one of a list of 4 more
  -- than the engine has rules, which does not depend on the texts.
  pub validate_all-counters :
      (backend : Backend) (ctx : Context (State W (ClientCall V))) (w : W) (texts : List GoString)
      → Apart ctx
      → ((call : ClientCall V)
          → In call
              (validate_all backend ctx
                (record { world = record { world = w; trace = [] }; trace = [] })
                texts).world.trace
          → (labels : List GoString) → LabelsOf call labels
          → In labels counters)
        × (length counters ≡ 4 + length rules)
  validate_all-counters backend ctx w texts apart = (
    validate_all-Within backend ctx _ texts apart (λ call absent. elim absent [ ]),
    omega (arith, length-counters rules),
  )
