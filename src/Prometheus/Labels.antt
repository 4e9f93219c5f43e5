-- ===== src/Prometheus/Labels.antt =====
-- The label values of pkg/observability/prometheus/prometheus.go, read back.
use postgres_sqlguard.Common.{
  ◌≡◌, refl, List, [], ◌∷◌, Option, none, some, GoString, ascii, str_eq, if◌then◌else◌,
}
use postgres_sqlguard.Observability.{
  ValidationMode, enforce, ValidationOutcome, ValidationEvent, mode_label, outcome_label, allowed,
  policy_violation, parser_failure, canceled, invalid_prepared,
}
use postgres_sqlguard.Prometheus.{Metrics, label_values}

unfoldable pub mode_at : GoString → Option ValidationMode
mode_at label = if str_eq label (ascii "enforce") then some enforce else none

unfoldable pub outcome_at : GoString → Option ValidationOutcome
outcome_at label =
    if str_eq label (ascii "allowed")
    then some allowed
    else if str_eq label (ascii "policy_violation")
    then some policy_violation
    else if str_eq label (ascii "parser_failure")
    then some parser_failure
    else if str_eq label (ascii "canceled")
    then some canceled
    else if str_eq label (ascii "invalid_prepared")
    then some invalid_prepared
    else none

unfoldable pub event_with :
    Option ValidationMode → Option ValidationOutcome → GoString → Option ValidationEvent
event_with (some mode) (some outcome) rule_id =
    some (record { mode = mode; outcome = outcome; rule_id = rule_id })
event_with _ _ rule_id = none

-- The event that label values stand for.
unfoldable pub event_at : List GoString → Option ValidationEvent
unfolding mode_at outcome_at event_with
event_at (service ∷ mode ∷ outcome ∷ rule_id ∷ []) =
    event_with (mode_at mode) (outcome_at outcome) rule_id
event_at _ = none

mode_at-mode_label : (mode : ValidationMode) → mode_at (mode_label mode) ≡ some mode
unfolding mode_at mode_label ascii str_eq
mode_at-mode_label enforce = refl

outcome_at-outcome_label :
    (outcome : ValidationOutcome) → outcome_at (outcome_label outcome) ≡ some outcome
unfolding outcome_at outcome_label ascii str_eq
outcome_at-outcome_label allowed = refl
outcome_at-outcome_label policy_violation = refl
outcome_at-outcome_label parser_failure = refl
outcome_at-outcome_label canceled = refl
outcome_at-outcome_label invalid_prepared = refl

-- An event can be read back from its label values, for any service: no two different events
-- are counted by one counter.
pub event_at-label_values :
    {V : Type 0} (m : Metrics V) (event : ValidationEvent)
    → event_at (label_values m event) ≡ some event
unfolding event_at label_values event_with
event_at-label_values m event =
    rw (mode_at-mode_label event.mode, outcome_at-outcome_label event.outcome) refl
