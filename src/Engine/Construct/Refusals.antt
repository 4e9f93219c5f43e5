-- ===== src/Engine/Construct/Refusals.antt =====
-- What `NewEngine` of engine.go is to return for given rules, each refusal included.
use postgres_sqlguard.Common.{◌≡◌, true, false, List, [], ◌∷◌, Option, none, some, GoString, In}
use postgres_sqlguard.Rule.Identifier.{IsRuleId}
use postgres_sqlguard.Errors.{GoError, duplicate_rule}
use postgres_sqlguard.Runtime.{Outcome, returned, panicked}
use postgres_sqlguard.Interface.{Interface, is_typed_nil, is_nil_interface, invoke}
use postgres_sqlguard.Contracts.{Call, id_read, Rule, Engine, EngineOptions}
use postgres_sqlguard.Engine.Construct.{
  err_nil_rule, err_invalid_rule_id, err_nil_metrics, err_nil_logger, Construction, built, refused,
}
use postgres_sqlguard.Engine.Construct.Accepted.{IsBuilt}

module _ {W : Type 0} where
  -- The rules one after the other, given the identifiers seen before, up to the first that is refused.
  pub data CheckRun
      : List GoString
        → List (Interface (Rule W))
        → W
        → List Call
        → Outcome (Option GoError)
        → Type 0 where
    all_accepted : {seen : List GoString} {w : W} → CheckRun seen [] w [] (returned none)
    nil_rule :
        {seen : List GoString} {rule : Interface (Rule W)} {rules : List (Interface (Rule W))}
        {w : W}
        → is_nil_interface rule ≡ true
        → CheckRun seen (rule ∷ rules) w [] (returned (some err_nil_rule))
    id_panic :
        {seen : List GoString} {rule : Interface (Rule W)} {rules : List (Interface (Rule W))}
        {w w' : W}
        → is_nil_interface rule ≡ false
        → invoke rule (λ r. r.id) w ≡ (panicked, w')
        → CheckRun seen (rule ∷ rules) w (id_read ∷ []) panicked
    bad_id :
        {seen : List GoString} {rule : Interface (Rule W)} {rules : List (Interface (Rule W))}
        {w w' : W} {id : GoString}
        → is_nil_interface rule ≡ false
        → invoke rule (λ r. r.id) w ≡ (returned id, w')
        → (¬ IsRuleId id)
        → CheckRun seen (rule ∷ rules) w (id_read ∷ []) (returned (some err_invalid_rule_id))
    duplicate :
        {seen : List GoString} {rule : Interface (Rule W)} {rules : List (Interface (Rule W))}
        {w w' : W} {id : GoString}
        → is_nil_interface rule ≡ false
        → invoke rule (λ r. r.id) w ≡ (returned id, w')
        → IsRuleId id
        → In id seen
        → CheckRun seen (rule ∷ rules) w (id_read ∷ []) (returned (some (duplicate_rule id)))
    accepted :
        {seen : List GoString} {rule : Interface (Rule W)} {rules : List (Interface (Rule W))}
        {w w' : W} {id : GoString} {calls : List Call} {o : Outcome (Option GoError)}
        → is_nil_interface rule ≡ false
        → invoke rule (λ r. r.id) w ≡ (returned id, w')
        → IsRuleId id
        → (¬ In id seen)
        → CheckRun (id ∷ seen) rules w' calls o
        → CheckRun seen (rule ∷ rules) w (id_read ∷ calls) o

  -- `NewEngine`: the sinks first, then the rules.
  pub data NewRun (options : EngineOptions W) (rules : List (Interface (Rule W))) (w : W)
      : List Call → Outcome (Construction W) → Type 0 where
    nil_metrics :
        is_typed_nil options.metrics ≡ true
        → NewRun options rules w [] (returned (refused err_nil_metrics))
    nil_logger :
        is_typed_nil options.metrics ≡ false
        → is_typed_nil options.logger ≡ true
        → NewRun options rules w [] (returned (refused err_nil_logger))
    rules_refused :
        {calls : List Call} {err : GoError}
        → is_typed_nil options.metrics ≡ false
        → is_typed_nil options.logger ≡ false
        → CheckRun [] rules w calls (returned (some err))
        → NewRun options rules w calls (returned (refused err))
    rules_panic :
        {calls : List Call}
        → is_typed_nil options.metrics ≡ false
        → is_typed_nil options.logger ≡ false
        → CheckRun [] rules w calls panicked
        → NewRun options rules w calls panicked
    rules_accepted :
        {calls : List Call} {e : Engine W}
        → CheckRun [] rules w calls (returned none)
        → IsBuilt options rules e
        → NewRun options rules w calls (returned (built e))
