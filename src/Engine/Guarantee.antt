-- ===== src/Engine/Guarantee.antt =====
-- What the absence of an error from `Validate` of engine.go means.
use postgres_sqlguard.Common.{
  ◌≡◌, ◌↔◌, refl, sym, ◌∙◌, ap, subst, Bool, false, List, [], ◌∷◌, Option, none, some, GoString,
  arith, Bool-cases, inl, inr, In, here, there, In-concat_map, In-concat_map_inv,
}
use postgres_sqlguard.Parser.Node.{Node}
use postgres_sqlguard.Parser.Result.{Result}
use postgres_sqlguard.Parser.Protobuf.{Backend}
use postgres_sqlguard.Parser.Convert.{ParseOutcome, parsed, failed, parse}
use postgres_sqlguard.Parser.Traversal.{statement_sequence}
use postgres_sqlguard.Parser.Traversal.Reach.{Reaches, statement_sequence-Reaches}
use postgres_sqlguard.Statement.{Statement, new_statement}
use postgres_sqlguard.Errors.{GoError, translate_parser_error}
use postgres_sqlguard.Runtime.{Outcome, returned, State}
use postgres_sqlguard.Contracts.{Call, Context, RegisteredRule, Engine}
use postgres_sqlguard.Engine.{validate}
use postgres_sqlguard.Engine.Schedule.{Round, rounds_of, schedule}
use postgres_sqlguard.Engine.Policy.{
  Decides, first_rejection, violation_of, policy, validate-policy,
}

module _ {W : Type 0} (rejects : RegisteredRule W → Statement → Bool) where
  abbrev AllPass : List (Round W) → Type 0
  AllPass rounds =
      (reg : RegisteredRule W) (st : Statement) → In (reg, st) rounds → rejects reg st ≡ false

  none-AllPass : (rounds : List (Round W)) → first_rejection rejects rounds ≡ none → AllPass rounds
  unfolding first_rejection
  none-AllPass [] h reg st at = elim at [ ]
  none-AllPass ((r, t) ∷ rounds) h reg st (here e) = elim (Bool-cases (rejects r t)) [
    | inl denied ↦ absurd (ground arith)
    | inr granted ↦ ap (λ p. rejects p.0 p.1) e ∙ granted
  ]
  none-AllPass ((r, t) ∷ rounds) h reg st (there at) = elim (Bool-cases (rejects r t)) [
    | inl denied ↦ absurd (ground arith)
    | inr granted ↦ none-AllPass rounds (ground arith) reg st at
  ]

  AllPass-none : (rounds : List (Round W)) → AllPass rounds → first_rejection rejects rounds ≡ none
  unfolding first_rejection
  AllPass-none [] h = refl
  AllPass-none ((r, t) ∷ rounds) h =
      let granted = h r t (here refl) in
      ground (arith, AllPass-none rounds (λ reg st at. h reg st (there at)))

  pub In-rounds_of :
      (regs : List (RegisteredRule W)) (root : Node) (reg : RegisteredRule W)
      → In reg regs
      → In (reg, new_statement (some root)) (rounds_of regs root)
  In-rounds_of (r ∷ regs) root reg (here e) = here (ap (λ x. (x, new_statement (some root))) e)
  In-rounds_of (r ∷ regs) root reg (there at) = there (In-rounds_of regs root reg at)
  In-rounds_of [] root reg at = elim at [ ]

  rounds_of-In :
      (regs : List (RegisteredRule W)) (root : Node) (reg : RegisteredRule W) (st : Statement)
      → In (reg, st) (rounds_of regs root)
      → In reg regs × (st ≡ new_statement (some root))
  rounds_of-In (r ∷ regs) root reg st (here e) = (here (ap (λ p. p.0) e), ap (λ p. p.1) e)
  rounds_of-In (r ∷ regs) root reg st (there at) =
      let (m, e) = rounds_of-In regs root reg st at in (there m, e)
  rounds_of-In [] root reg st at = elim at [ ]

  -- No registered rule rejects a statement that a top-level statement reaches.
  abbrev pub Clean : List (RegisteredRule W) → Result → Type 0
  Clean rules r =
      (reg : RegisteredRule W) (n m : Node)
      → In reg rules
      → In (some n) r.statements
      → Reaches n m
      → rejects reg (new_statement (some m)) ≡ false

  AllPass-Clean :
      (rules : List (RegisteredRule W)) (r : Result)
      → AllPass (schedule rules (statement_sequence (some r)))
      → Clean rules r
  unfolding schedule
  AllPass-Clean rules r h reg n m registered top reaches = h reg (new_statement (some m)) (
      In-concat_map (rounds_of rules) ((statement_sequence-Reaches r m).1 (n, top, reaches))
        (In-rounds_of rules m reg registered))

  Clean-AllPass :
      (rules : List (RegisteredRule W)) (r : Result)
      → Clean rules r
      → AllPass (schedule rules (statement_sequence (some r)))
  unfolding schedule
  Clean-AllPass rules r h reg st at =
      let (m, visited, round) =
        In-concat_map_inv (rounds_of rules) (statement_sequence (some r)) at in
      let (registered, e) = rounds_of-In rules m reg st round in
      let (n, top, reaches) = (statement_sequence-Reaches r m).0 visited in
      ap (rejects reg) e ∙ h reg n m registered top reaches

  violation_of-none :
      (o : Option GoString)
      → Path (Outcome (Option GoError)) (returned (violation_of rejects o)) (returned none)
      → o ≡ none
  violation_of-none none h = refl
  violation_of-none (some id) h = absurd (cc)

  policy-none :
      (rules : List (RegisteredRule W)) (outcome : ParseOutcome)
      → Path (Outcome (Option GoError)) (returned (policy rejects rules outcome)) (returned none)
      → (r : Result) × (outcome ≡ parsed r) × Clean rules r
  unfolding policy translate_parser_error
  policy-none rules (failed p) h = absurd (cc)
  policy-none rules (parsed r) h = (
    r,
    refl,
    AllPass-Clean rules r
        (none-AllPass (schedule rules (statement_sequence (some r))) (violation_of-none _ h)),
  )

  none-policy :
      (rules : List (RegisteredRule W)) (outcome : ParseOutcome) (r : Result)
      → outcome ≡ parsed r
      → Clean rules r
      → policy rejects rules outcome ≡ none
  unfolding policy
  none-policy rules outcome r e clean =
      subst (λ o. policy rejects rules o ≡ none) (sym e)
        (ap (violation_of rejects) (AllPass-none _ (Clean-AllPass rules r clean)))

-- Under a context that never ends and rules that decide by the statement alone, `Validate`
-- returns no error exactly when the text parses and no registered rule rejects any statement that a
-- top-level statement reaches through WITH clauses, itself included.
pub validate_allowed_iff :
    {W : Type 0} (backend : Backend) (e : Engine W) (ctx : Context W) (sql : GoString)
    (s : State W Call) (rejects : RegisteredRule W → Statement → Bool)
    → Decides ctx e.rules rejects
    → ((validate backend e ctx sql s).0 ≡ returned none)
      ↔ ((r : Result) × (parse backend sql ≡ parsed r) × Clean rejects e.rules r)
validate_allowed_iff backend e ctx sql s rejects d = (
  λ h.
      policy-none rejects e.rules (parse backend sql)
        (sym (validate-policy backend e ctx sql s rejects d) ∙ h),
  λ (r, parsing, clean).
      validate-policy backend e ctx sql s rejects d
      ∙ ap returned (none-policy rejects e.rules (parse backend sql) r parsing clean),
)
