-- ===== src/Engine/Construct/Accepted.antt =====
-- What `NewEngine` of engine.go has checked when it returns an engine.
use postgres_sqlguard.Common.{
  ◌≡◌, ◌↔◌, refl, sym, ◌∙◌, ap, true, false, List, [], ◌∷◌, ◌++◌, append-nil, append_assoc,
  GoString, str_eq, str_eq_iff, In, here, there, Bool-cases, inl, inr, arith, ||-eq-true,
}
use postgres_sqlguard.Rule.{valid_rule_id}
use postgres_sqlguard.Rule.Identifier.{IsRuleId, valid_rule_id_iff}
use postgres_sqlguard.Runtime.{Outcome, returned, panicked, State, continue, perform}
use postgres_sqlguard.Interface.{Interface, is_typed_nil, is_nil_interface, invoke}
use postgres_sqlguard.Contracts.{Call, id_read, Rule, RegisteredRule, Engine, EngineOptions}
use postgres_sqlguard.Engine.Construct.{
  contains, Checked, valid, check_id, validate_from, validate_rules, register, after_check,
  new_engine,
}

contains-In : (seen : List GoString) (id : GoString) → contains seen id ≡ true → In id seen
unfolding contains
contains-In [] id h = absurd (cc)
contains-In (x ∷ seen) id h = elim (||-eq-true (str_eq x id) _ h) [
  | inl same ↦ here (sym ((str_eq_iff x id).0 same))
  | inr more ↦ there (contains-In seen id more)
]

In-contains : (seen : List GoString) (id : GoString) → In id seen → contains seen id ≡ true
unfolding contains
In-contains (x ∷ seen) id (here e) = ground (arith, (str_eq_iff x id).1 (sym e))
In-contains (x ∷ seen) id (there at) = ground (arith, In-contains seen id at)
In-contains [] id at = elim at [ ]

pub contains_iff : (seen : List GoString) (id : GoString) → (contains seen id ≡ true) ↔ In id seen
contains_iff seen id = (contains-In seen id, In-contains seen id)

module _ {W : Type 0} where
  -- Rules with the identifiers that they are registered under, none of which was seen before.
  abbrev pub Accepted : List GoString → List (Interface (Rule W)) → List GoString → Type 0
  Accepted seen [] [] = Unit
  Accepted seen (rule ∷ rules) (id ∷ ids) =
      (is_nil_interface rule ≡ false)
      × IsRuleId id
      × (¬ In id seen)
      × Accepted (id ∷ seen) rules ids
  Accepted seen _ _ = ⊥

  -- A loop of `validateRules` that accepts.
  pub record Accepts (seen ids : List GoString) (rules : List (Interface (Rule W)))
      (out : List GoString) : Type 0 where
    pub new : List GoString
    pub split : out ≡ ids ++ new
    pub accepted : Accepted seen rules new

  abbrev pub Sound :
      List GoString
      → List GoString
      → List (Interface (Rule W))
      → Outcome Checked × State W Call
      → Type 0
  Sound seen ids rules r =
      (out : List GoString) → r.0 ≡ returned (valid out) → Accepts seen ids rules out

  module _ (seen ids : List GoString) (rule : Interface (Rule W))
      (rules : List (Interface (Rule W))) (present : is_nil_interface rule ≡ false)
      (rest : (id : GoString) (s : State W Call)
        → Sound
            (id ∷ seen)
            (ids ++ id ∷ [])
            rules
            (validate_from (id ∷ seen) (ids ++ id ∷ []) rules s)) where
    check_id-Sound :
        (id : GoString) (s : State W Call)
        → Sound seen ids
            (rule ∷ rules)
            (check_id seen (λ id. validate_from (id ∷ seen) (ids ++ id ∷ []) rules) id s)
    unfolding check_id
    check_id-Sound id s out h = elim (Bool-cases (valid_rule_id id)) [
      | inr bad ↦ absurd (ground arith)
      | inl good ↦ elim (Bool-cases (contains seen id)) [
        | inl twice ↦ absurd (ground arith)
        | inr fresh ↦
            let again = rest id s out (ground arith) in
            record {
              new = id ∷ again.new;
              split = again.split ∙ append_assoc ids (id ∷ []) again.new;
              accepted = (
                present,
                (valid_rule_id_iff id).0 good,
                λ at. cc (fresh, In-contains seen id at),
                again.accepted,
              );
            }
      ]
    ]

    named-Sound :
        (p : Outcome GoString × W) (s : State W Call)
        → Sound seen ids (rule ∷ rules) (
            continue
              (p.0, record { world = p.1; trace = s.trace ++ id_read ∷ [] })
              (check_id seen (λ id. validate_from (id ∷ seen) (ids ++ id ∷ []) rules)))
    named-Sound (returned id, w) s out h = check_id-Sound id _ out h
    named-Sound (panicked, w) s out h = cc

  pub validate_from-step :
      (rule : Interface (Rule W)) (rules : List (Interface (Rule W))) (seen ids : List GoString)
      (s : State W Call)
      → is_nil_interface rule ≡ false
      → validate_from seen ids (rule ∷ rules) s
        ≡ continue
            (perform id_read (invoke rule (λ r. r.id)) s)
            (check_id seen (λ id. validate_from (id ∷ seen) (ids ++ id ∷ []) rules))
  unfolding validate_from
  validate_from-step rule rules seen ids s present = rw present refl

  pub validate_from-Sound :
      (rules : List (Interface (Rule W))) (seen ids : List GoString) (s : State W Call)
      → Sound seen ids rules (validate_from seen ids rules s)
  unfolding validate_from perform
  validate_from-Sound [] seen ids s out h = record {
    new = [];
    split = (let e : ids ≡ out = cc in sym e ∙ sym (append-nil ids));
    accepted = tt;
  }
  validate_from-Sound (rule ∷ rules) seen ids s out h = elim (Bool-cases (is_nil_interface rule)) [
    | inl absent ↦ absurd (ground arith)
    | inr present ↦
        named-Sound seen ids rule rules present
          (λ id t. validate_from-Sound rules (id ∷ seen) (ids ++ id ∷ []) t)
          (invoke rule (λ r. r.id) s.world) s out
          (sym (ap (λ r. r.0) (validate_from-step rule rules seen ids s present)) ∙ h)
  ]

  -- What is registered: each identifier with its rule.
  unfoldable pub registrations : List GoString → List (Interface (Rule W)) → List (RegisteredRule W)
  registrations (id ∷ ids) (rule ∷ rules) =
      record { rule_id = id; rule = rule } ∷ registrations ids rules
  registrations _ _ = []

  pub register-registrations :
      (seen : List GoString) (rules : List (Interface (Rule W))) (ids : List GoString)
      (s : State W Call)
      → Accepted seen rules ids
      → register ids rules s ≡ (returned (registrations ids rules), s)
  unfolding register registrations
  register-registrations seen [] [] s h = refl
  register-registrations seen [] (id ∷ ids) s h = absurd h
  register-registrations seen (rule ∷ rules) [] s h = absurd h
  register-registrations seen (rule ∷ rules) (id ∷ ids) s h =
      rw (register-registrations (id ∷ seen) rules ids s h.3) refl

  -- An engine that `NewEngine` may return for its arguments.
  pub record IsBuilt (options : EngineOptions W) (rules : List (Interface (Rule W))) (e : Engine W)
      : Type 0 where
    pub ids : List GoString
    pub accepted : Accepted [] rules ids
    pub registered : e.rules ≡ registrations ids rules
    pub metrics : e.metrics ≡ options.metrics
    pub logger : e.logger ≡ options.logger
    pub metrics_not_nil : is_typed_nil options.metrics ≡ false
    pub logger_not_nil : is_typed_nil options.logger ≡ false

  module _ (options : EngineOptions W) (rules : List (Interface (Rule W))) (e : Engine W) where
    pub checks :
        is_typed_nil options.metrics ≡ false
        → is_typed_nil options.logger ≡ false
        → (s : State W Call)
        → new_engine options rules s ≡ continue (validate_rules rules s) (after_check options rules)
    unfolding new_engine
    checks m l s = rw (m, l) refl
