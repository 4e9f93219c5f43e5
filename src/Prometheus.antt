-- ===== src/Prometheus.antt =====
-- pkg/observability/prometheus/prometheus.go: a metrics sink that counts validations.
pub mod Construct
pub mod Labels
pub mod Counted
use postgres_sqlguard.Common.{
  Bool, true, false, not, List, [], ◌∷◌, ◌++◌, Option, none, some, GoString, ascii, str_eq,
  if◌then◌else◌,
}
use postgres_sqlguard.Errors.{GoError, errors_new, wrapped}
use postgres_sqlguard.Observability.{ValidationEvent, mode_label, outcome_label}
use postgres_sqlguard.Runtime.{Outcome, returned, Action, Go, pure, ◌>>=◌, ◌>>◌, perform, continue}
use postgres_sqlguard.Interface.{Interface, nil_interface, holds, nilable, invoke}

abbrev pub default_metric_name : GoString
default_metric_name = ascii "sqlguard_validations_total"

abbrev pub err_nil_registerer : GoError
err_nil_registerer = errors_new (ascii "sqlguard prometheus: registerer must not be nil")

abbrev pub err_empty_service : GoError
err_empty_service = errors_new (ascii "sqlguard prometheus: service must not be empty")

abbrev pub err_invalid_metric_name : GoError
err_invalid_metric_name = errors_new (ascii "sqlguard prometheus: metric name is invalid")

-- `prometheusclient.CounterOpts`
pub record CounterOpts : Type 0 where
  pub name : GoString
  pub help : GoString

-- A counter of a vector: `Inc` adds to it.
pub record Counter (W : Type 0) : Type 0 where
  pub inc : W → W

-- The functions of client_golang and of prometheus/common that are called; `V` is the type of
-- pointers to counter vectors.
pub record Client (W V : Type 0) : Type 0 where
  pub is_valid_metric_name : GoString → Bool
  pub new_counter_vec : CounterOpts → List GoString → Action W V
  pub with_label_values : V → List GoString → Action W (Counter W)

pub record Registerer (W V : Type 0) : Type 0 where
  pub register : V → Action W (Option GoError)

-- The calls made, the creation of a vector and its registration with what they returned.
pub data ClientCall (V : Type 0) : Type 0 where
  created : CounterOpts → List GoString → Outcome V → ClientCall V
  registered : V → Outcome (Option GoError) → ClientCall V
  selected : List GoString → ClientCall V
  incremented : List GoString → ClientCall V

pub record Config (W V : Type 0) : Type 0 where
  pub registerer : Interface (Registerer W V)
  pub service : GoString
  pub metric_name : GoString

pub record Metrics (V : Type 0) : Type 0 where
  pub service : GoString
  pub validations : V

-- The results of `New`.
pub data NewMetrics (V : Type 0) : Type 0 where
  built : Metrics V → NewMetrics V
  refused : GoError → NewMetrics V

-- `isNilRegisterer`
unfoldable pub is_nil_registerer : {W V : Type 0} → Interface (Registerer W V) → Bool
is_nil_registerer nil_interface = true
is_nil_registerer (holds kind is_nil registerer) = if nilable kind then is_nil else false

-- The name in the configuration, or the default one.
unfoldable pub metric_name_of : GoString → GoString
metric_name_of [] = default_metric_name
metric_name_of (c ∷ name) = c ∷ name

abbrev pub label_names : List GoString
label_names = ascii "service" ∷ ascii "mode" ∷ ascii "outcome" ∷ ascii "rule_id" ∷ []

abbrev pub counter_opts : GoString → CounterOpts
counter_opts metric_name = record {
  name = metric_name;
  help = ascii "Total number of postgres-sqlguard validation outcomes.";
}

-- The label values of an event.
unfoldable pub label_values : {V : Type 0} → Metrics V → ValidationEvent → List GoString
label_values m event =
    m.service ∷ mode_label event.mode ∷ outcome_label event.outcome ∷ event.rule_id ∷ []

-- `New` after `Register`.
unfoldable pub after_register : {V : Type 0} → GoString → V → Option GoError → NewMetrics V
after_register service validations (some err) =
    refused (wrapped (ascii "sqlguard prometheus: register metric") err)
after_register service validations none =
    built (record { service = service; validations = validations })

-- A call noted with what it returned.
unfoldable pub noted :
    {W V A : Type 0} → (Outcome A → ClientCall V) → Action W A → Go W (ClientCall V) A
noted call action s =
    let (outcome, w) = action s.world in
    (outcome, record { world = w; trace = s.trace ++ call outcome ∷ [] })

module _ {W V : Type 0} (client : Client W V) where
  -- `New` after its checks.
  unfoldable pub register_counter : Config W V → GoString → Go W (ClientCall V) (NewMetrics V)
  unfolding noted after_register
  register_counter config metric_name = do
    validations ←
        noted (created (counter_opts metric_name) label_names)
          (client.new_counter_vec (counter_opts metric_name) label_names)
    err ← noted (registered validations) (invoke config.registerer (λ r. r.register validations))
    pure (after_register config.service validations err)

  -- `New`
  unfoldable pub new : Config W V → Go W (ClientCall V) (NewMetrics V)
  unfolding is_nil_registerer metric_name_of register_counter
  new config =
      if is_nil_registerer config.registerer
      then pure (refused err_nil_registerer)
      else if str_eq config.service []
      then pure (refused err_empty_service)
      else if not (client.is_valid_metric_name (metric_name_of config.metric_name))
      then pure (refused err_invalid_metric_name)
      else register_counter config (metric_name_of config.metric_name)

  -- `RecordValidation`
  unfoldable pub record_validation :
      Metrics V → ValidationEvent → Go W (ClientCall V) (Option GoError)
  unfolding perform label_values
  record_validation m event = do
    counter ←
        perform (selected (label_values m event))
          (client.with_label_values m.validations (label_values m event))
    perform (incremented (label_values m event)) (λ w. (returned tt, counter.inc w))
    pure none
