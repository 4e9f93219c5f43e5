-- ===== src/Tests/Counting.antt =====
-- pkg/observability/prometheus: a sink, its events, and an engine that has it.
use postgres_sqlguard.Common.{
  ◌≡◌, refl, true, false, List, [], ◌∷◌, ◌++◌, length, ◌+◌, none, some, GoString, ascii, str_eq, In,
  here, there,
}
use postgres_sqlguard.Statement.{Statement}
use postgres_sqlguard.Observability.{ValidationEvent, enforce, policy_violation}
use postgres_sqlguard.Runtime.{returned, State}
use postgres_sqlguard.Interface.{nil_interface, holds, pointer_kind, invoke, nilable}
use postgres_sqlguard.Contracts.{Call, Context, RegisteredRule}
use postgres_sqlguard.Engine.{validate, emit_logger}
use postgres_sqlguard.Engine.Schedule.{answer_of}
use postgres_sqlguard.Rules.Builtin.{truncate}
use postgres_sqlguard.Rules.Guarantee.{registered_all}
use postgres_sqlguard.Prometheus.{
  Client, ClientCall, Config, Metrics, built, new, label_values, is_nil_registerer,
  register_counter, noted, after_register,
}
use postgres_sqlguard.Prometheus.Construct.{IsBuilt, new-IsBuilt}
use postgres_sqlguard.Prometheus.Labels.{event_at, event_at-label_values}
use postgres_sqlguard.Prometheus.Counted.{
  Apart, Counted, counting_engine, counters, LabelsOf, validate_all, validate-Counted,
  validate_all-counters,
}
use postgres_sqlguard.Tests.Samples.{backend, good_text}

abbrev pub deny_truncate_rules : {W : Type 0} → List (RegisteredRule W)
deny_truncate_rules = registered_all (truncate ∷ [])

abbrev pub live : {W : Type 0} → Context W
live = record { err = λ w. (returned none, w) }

-- The rule leaves its world alone.
pub deny_truncate-keeps :
    {W : Type 0} (reg : RegisteredRule W)
    → In reg deny_truncate_rules
    → (st : Statement) (w : W) → (answer_of live (reg, st) w).1 ≡ w
unfolding invoke
deny_truncate-keeps reg (here e) st w = rw e refl
deny_truncate-keeps reg (there at) st w = elim at [ ]

-- A client whose vector counts nothing.
abbrev client : Client (Unit {0}) (Unit {0})
client = record {
  is_valid_metric_name = λ name. true;
  new_counter_vec = λ opts labels w. (returned tt, w);
  with_label_values = λ v labels w. (returned (record { inc = λ w. w }), w);
}

abbrev sink : Metrics (Unit {0})
sink = record { service = ascii "orders"; validations = tt }

abbrev config : Config (Unit {0}) (Unit {0})
config = record {
  registerer = holds pointer_kind false (record { register = λ v w. (returned none, w) });
  service = ascii "orders";
  metric_name = [];
}

abbrev nothing_done : State (Unit {0}) (ClientCall (Unit {0}))
nothing_done = record { world = tt; trace = [] }

news : (new client config nothing_done).0 ≡ returned (built sink)
unfolding new is_nil_registerer nilable str_eq ascii register_counter noted invoke after_register
news = refl

new-IsBuilt_example :
    (calls : List (ClientCall (Unit {0}))) × ((new client config nothing_done).1.trace
      ≡ nothing_done.trace ++ calls)
    × IsBuilt client config sink calls
new-IsBuilt_example = new-IsBuilt client config nothing_done sink news

abbrev rejection : ValidationEvent
rejection = record { mode = enforce; outcome = policy_violation; rule_id = ascii "no-truncate" }

event_at-label_values_example : event_at (label_values sink rejection) ≡ some rejection
event_at-label_values_example = event_at-label_values sink rejection

apart : Apart client sink deny_truncate_rules pointer_kind nil_interface live
unfolding emit_logger
apart = record {
  context_keeps = λ w. refl;
  rules_keep = λ reg at st w. deny_truncate-trace reg at st w;
  logger_keeps = λ event s. refl;
}
  where
    deny_truncate-trace :
        (reg : RegisteredRule (State (Unit {0}) (ClientCall (Unit {0}))))
        → In reg deny_truncate_rules
        → (st : Statement) (w : State (Unit {0}) (ClientCall (Unit {0})))
        → (answer_of live (reg, st) w).1.trace ≡ w.trace
    deny_truncate-trace reg at st w = rw (deny_truncate-keeps reg at st w) refl

abbrev begin : State (State (Unit {0}) (ClientCall (Unit {0}))) Call
begin = record { world = nothing_done; trace = [] }

validate-Counted_example :
    Counted client sink deny_truncate_rules pointer_kind nil_interface live [] (
      validate backend
        (counting_engine client sink deny_truncate_rules pointer_kind nil_interface)
        live
        good_text
        begin)
validate-Counted_example =
    validate-Counted client sink deny_truncate_rules pointer_kind nil_interface live backend
      good_text begin apart

validate_all-counters_example :
    ((call : ClientCall (Unit {0}))
      → In call
          (validate_all client sink deny_truncate_rules pointer_kind nil_interface backend live
            begin
            (good_text ∷ ascii "SELEC" ∷ [])).world.trace
      → (labels : List GoString)
      → LabelsOf client sink deny_truncate_rules pointer_kind nil_interface call labels
      → In labels (counters client sink deny_truncate_rules pointer_kind nil_interface))
    × (length (counters client sink deny_truncate_rules pointer_kind nil_interface)
        ≡ 4
          + length (registered_all {W = State (Unit {0}) (ClientCall (Unit {0}))} (truncate ∷ [])))
validate_all-counters_example =
    validate_all-counters client sink deny_truncate_rules pointer_kind nil_interface backend live tt
      (good_text ∷ ascii "SELEC" ∷ []) apart
