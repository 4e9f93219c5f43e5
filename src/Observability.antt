-- ===== src/Observability.antt =====
-- observability.go: validation events.
use postgres_sqlguard.Common.{[], GoString, ascii}

pub data ValidationMode : Type 0 where
  enforce : ValidationMode

pub data ValidationOutcome : Type 0 where
  allowed policy_violation parser_failure canceled invalid_prepared : ValidationOutcome

-- The strings behind the constants.
unfoldable pub mode_label : ValidationMode → GoString
mode_label enforce = ascii "enforce"

unfoldable pub outcome_label : ValidationOutcome → GoString
outcome_label allowed = ascii "allowed"
outcome_label policy_violation = ascii "policy_violation"
outcome_label parser_failure = ascii "parser_failure"
outcome_label canceled = ascii "canceled"
outcome_label invalid_prepared = ascii "invalid_prepared"

pub record ValidationEvent : Type 0 where
  pub mode : ValidationMode
  pub outcome : ValidationOutcome
  pub rule_id : GoString

-- The rule identifier that an event keeps.
abbrev pub kept_rule_id : ValidationOutcome → GoString → GoString
kept_rule_id policy_violation rule_id = rule_id
kept_rule_id _ rule_id = []

-- `newValidationEvent`
unfoldable pub new_validation_event :
    ValidationMode → ValidationOutcome → GoString → ValidationEvent
new_validation_event mode outcome rule_id = record {
  mode = mode;
  outcome = outcome;
  rule_id = kept_rule_id outcome rule_id;
}
