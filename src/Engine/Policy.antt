-- ===== src/Engine/Policy.antt =====
-- `Validate` of engine.go as a policy: the first rejection decides.
use postgres_sqlguard.Common.{
  ◌≡◌, refl, ◌∙◌, ap, Bool, List, [], ◌∷◌, Option, none, some, GoString, if◌then◌else◌, Bool-cases,
  inl, inr, In, here, there, In-concat_map_inv,
}
use postgres_sqlguard.Parser.Node.{Node}
use postgres_sqlguard.Parser.Protobuf.{Backend}
use postgres_sqlguard.Parser.Convert.{ParseOutcome, parsed, failed, parse}
use postgres_sqlguard.Parser.Traversal.{statement_sequence}
use postgres_sqlguard.Statement.{Statement}
use postgres_sqlguard.Rule.{RuleResult, rejected}
use postgres_sqlguard.Errors.{GoError, parser_error, new_violation, translate_parser_error}
use postgres_sqlguard.Runtime.{returned, State}
use postgres_sqlguard.Contracts.{Call, Context, RegisteredRule, Engine}
use postgres_sqlguard.Engine.{validate}
use postgres_sqlguard.Engine.Schedule.{Round, rounds_of, answer_of, schedule}
use postgres_sqlguard.Engine.Verdicts.{verdict, after_parse, full_verdict, validate-full_verdict}

-- The context never ends, and each rule answers every statement by its decision: it does not
-- panic, and its answer does not depend on the world.
pub record Decides {W : Type 0} (ctx : Context W) (rules : List (RegisteredRule W))
    (rejects : RegisteredRule W → Statement → Bool) : Type 0 where
  pub live : (w : W) → (w' : W) × (ctx.err w ≡ (returned none, w'))
  pub answers :
      (reg : RegisteredRule W)
      → In reg rules
      → (st : Statement) (w : W)
      → (a : RuleResult) × (w' : W) × (answer_of ctx (reg, st) w ≡ (returned a, w'))
        × (rejected a ≡ rejects reg st)

module _ {W : Type 0} (rejects : RegisteredRule W → Statement → Bool) where
  -- The identifier of the first round that is rejected.
  unfoldable pub first_rejection : List (Round W) → Option GoString
  first_rejection [] = none
  first_rejection ((reg, st) ∷ rounds) =
      if rejects reg st then some reg.rule_id else first_rejection rounds

  abbrev pub violation_of : Option GoString → Option GoError
  violation_of none = none
  violation_of (some id) = some (new_violation id)

  -- The result that the policy asks for, given what the text parses to.
  unfoldable pub policy : List (RegisteredRule W) → ParseOutcome → Option GoError
  unfolding first_rejection
  policy rules (failed p) = translate_parser_error (some (parser_error (some p)))
  policy rules (parsed r) =
      violation_of (first_rejection (schedule rules (statement_sequence (some r))))

  module _ (ctx : Context W) (rules : List (RegisteredRule W)) (d : Decides ctx rules rejects) where
    verdict-first_rejection :
        (rounds : List (Round W)) (w : W)
        → ((reg : RegisteredRule W) (st : Statement) → In (reg, st) rounds → In reg rules)
        → verdict ctx rounds w ≡ returned (violation_of (first_rejection rounds))
    unfolding verdict first_rejection
    verdict-first_rejection [] w registered = refl
    verdict-first_rejection ((reg, st) ∷ rounds) w registered =
        let (w', live) = d.live w in
        let (a, w'', answered, same) = d.answers reg (registered reg st (here refl)) st w' in
        let rest = verdict-first_rejection rounds w'' (λ r t at. registered r t (there at)) in
        elim (Bool-cases (rejects reg st)) [
          | inl denied ↦ rw (live, answered, same, denied) refl
          | inr granted ↦ rw (live, answered, same, granted) rest
        ]

    rounds_of-registered :
        (regs : List (RegisteredRule W)) (root : Node) (reg : RegisteredRule W) (st : Statement)
        → In (reg, st) (rounds_of regs root)
        → In reg regs
    rounds_of-registered (r ∷ regs) root reg st (here e) = here (ap (λ p. p.0) e)
    rounds_of-registered (r ∷ regs) root reg st (there at) =
        there (rounds_of-registered regs root reg st at)
    rounds_of-registered [] root reg st at = elim at [ ]

    schedule-registered :
        (roots : List Node) (reg : RegisteredRule W) (st : Statement)
        → In (reg, st) (schedule rules roots)
        → In reg rules
    unfolding schedule
    schedule-registered roots reg st at =
        let (root, _, found) = In-concat_map_inv (rounds_of rules) roots at in
        rounds_of-registered rules root reg st found

    pub after_parse-policy :
        (outcome : ParseOutcome) (w : W)
        → after_parse ctx rules outcome w ≡ returned (policy rules outcome)
    unfolding policy
    after_parse-policy (failed p) w = refl
    after_parse-policy (parsed r) w =
        let (w', live) = d.live w in
        rw live (
          verdict-first_rejection (schedule rules (statement_sequence (some r))) w'
            (schedule-registered (statement_sequence (some r))))

    full_verdict-policy :
        (backend : Backend) (sql : GoString) (w : W)
        → full_verdict backend ctx rules sql w ≡ returned (policy rules (parse backend sql))
    unfolding full_verdict
    full_verdict-policy backend sql w =
        let (w', live) = d.live w in
        let (w'', still) = d.live w' in
        rw (live, still) (after_parse-policy (parse backend sql) w'')

-- Under a context that never ends and rules that decide by the statement alone, `Validate`
-- returns: the translated parser error, if the text does not parse; else the violation of the first
-- rejection, statement by statement and in registration order; else no error.
pub validate-policy :
    {W : Type 0} (backend : Backend) (e : Engine W) (ctx : Context W) (sql : GoString)
    (s : State W Call) (rejects : RegisteredRule W → Statement → Bool)
    → Decides ctx e.rules rejects
    → (validate backend e ctx sql s).0 ≡ returned (policy rejects e.rules (parse backend sql))
validate-policy backend e ctx sql s rejects d =
    validate-full_verdict e ctx backend sql s
    ∙ full_verdict-policy rejects ctx e.rules d backend sql s.world
