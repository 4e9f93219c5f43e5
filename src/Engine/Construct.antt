-- ===== src/Engine/Construct.antt =====
-- `NewEngine` and `validateRules` of engine.go.
pub mod Accepted
pub mod Refusals
pub mod Refused
use postgres_sqlguard.Common.{
  Bool, true, false, not, ◌||◌, List, [], ◌∷◌, ◌++◌, GoString, ascii, str_eq, if◌then◌else◌,
}
use postgres_sqlguard.Rule.{valid_rule_id}
use postgres_sqlguard.Errors.{GoError, errors_new, duplicate_rule}
use postgres_sqlguard.Runtime.{Go, panicked, pure, ◌>>=◌, perform, continue}
use postgres_sqlguard.Interface.{Interface, is_typed_nil, is_nil_interface, invoke}
use postgres_sqlguard.Contracts.{Engine, EngineOptions, RegisteredRule, Rule, Call, id_read}

abbrev pub err_nil_rule : GoError
err_nil_rule = errors_new (ascii "sqlguard: rule must not be nil")

abbrev pub err_invalid_rule_id : GoError
err_invalid_rule_id = errors_new (ascii "sqlguard: rule identifier is invalid")

abbrev pub err_nil_metrics : GoError
err_nil_metrics = errors_new (ascii "sqlguard: metrics must not be nil")

abbrev pub err_nil_logger : GoError
err_nil_logger = errors_new (ascii "sqlguard: logger must not be nil")

-- A key of the map `seenRuleIDs`.
unfoldable pub contains : List GoString → GoString → Bool
contains [] id = false
contains (seen ∷ more) id = str_eq seen id || contains more id

-- The results of `validateRules`.
pub data Checked : Type 0 where
  valid : List GoString → Checked
  invalid : GoError → Checked

-- The results of `NewEngine`.
pub data Construction (W : Type 0) : Type 0 where
  built : Engine W → Construction W
  refused : GoError → Construction W

module _ {W : Type 0} where
  -- A round of the loop of `validateRules` after `rule.ID()`; the rest of the loop is an argument.
  unfoldable pub check_id :
      List GoString → (GoString → Go W Call Checked) → GoString → Go W Call Checked
  check_id seen rest id =
      if not (valid_rule_id id)
      then pure (invalid err_invalid_rule_id)
      else if contains seen id
      then pure (invalid (duplicate_rule id))
      else rest id

  -- The loop of `validateRules`.
  unfoldable pub validate_from :
      List GoString → List GoString → List (Interface (Rule W)) → Go W Call Checked
  unfolding check_id perform
  validate_from seen ids [] = pure (valid ids)
  validate_from seen ids (rule ∷ rules) =
      if is_nil_interface rule then pure (invalid err_nil_rule) else do
        id ← perform id_read (invoke rule (λ r. r.id))
        check_id seen (λ id. validate_from (id ∷ seen) (ids ++ id ∷ []) rules) id

  -- `validateRules`
  unfoldable pub validate_rules : List (Interface (Rule W)) → Go W Call Checked
  unfolding validate_from
  validate_rules rules = validate_from [] [] rules

  -- The loop that registers the rules; `ruleIDs[index]` panics out of range.
  unfoldable pub register :
      List GoString → List (Interface (Rule W)) → Go W Call (List (RegisteredRule W))
  register ids [] = pure []
  register [] (rule ∷ rules) = λ s. (panicked, s)
  register (id ∷ ids) (rule ∷ rules) = do
    registrations ← register ids rules
    pure (record { rule_id = id; rule = rule } ∷ registrations)

  unfoldable pub after_check :
      EngineOptions W → List (Interface (Rule W)) → Checked → Go W Call (Construction W)
  unfolding register
  after_check options rules (invalid err) = pure (refused err)
  after_check options rules (valid ids) = do
    registrations ← register ids rules
    pure (
        built
          (record { rules = registrations; metrics = options.metrics; logger = options.logger }))

  -- `NewEngine`
  unfoldable pub new_engine :
      EngineOptions W → List (Interface (Rule W)) → Go W Call (Construction W)
  unfolding validate_rules after_check
  new_engine options rules =
      if is_typed_nil options.metrics
      then pure (refused err_nil_metrics)
      else if is_typed_nil options.logger
      then pure (refused err_nil_logger)
      else do checked ← validate_rules rules; after_check options rules checked
