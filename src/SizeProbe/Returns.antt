-- ===== src/SizeProbe/Returns.antt =====
-- When the probe of internal/testutil/cmd/sizeprobe/main.go ends without a panic.
use postgres_sqlguard.Common.{
  ◌≡◌, ◌↔◌, refl, subst, sym, List, [], ◌∷◌, Option, none, some, GoString, ascii, str_eq, In, here,
  there,
}
use postgres_sqlguard.Parser.Result.{Result}
use postgres_sqlguard.Parser.Protobuf.{Backend}
use postgres_sqlguard.Parser.Convert.{parse, parsed}
use postgres_sqlguard.Errors.{GoError}
use postgres_sqlguard.Rule.{valid_rule_id}
use postgres_sqlguard.Runtime.{Outcome, returned, panicked, State, Go, continue}
use postgres_sqlguard.Interface.{nil_interface, invoke, is_typed_nil, is_nil_interface}
use postgres_sqlguard.Contracts.{Call, Engine}
use postgres_sqlguard.Engine.{validate}
use postgres_sqlguard.Engine.Construct.{built, contains, new_engine}
use postgres_sqlguard.Rules.Builtin.{update_where, delete_where}
use postgres_sqlguard.Rules.Guarantee.{NoneForbidden, registered_all, validate_builtins_iff}
use postgres_sqlguard.SizeProbe.{
  background, no_options, rules, after_validate, validate_queries, queries, after_new_engine, main,
}

-- The text parses, and has no UPDATE or DELETE without a WHERE clause, in its WITH clauses either.
abbrev pub Harmless : Backend → GoString → Type 0
Harmless backend sql =
    (r : Result) × (parse backend sql ≡ parsed r)
    × NoneForbidden (update_where ∷ delete_where ∷ []) r

module _ {W : Type 0} where
  abbrev probe_engine : Engine W
  probe_engine = record {
    rules = registered_all (update_where ∷ delete_where ∷ []);
    metrics = nil_interface;
    logger = nil_interface;
  }

  builds : (s : State W Call) → (new_engine no_options rules s).0 ≡ returned (built probe_engine)
  unfolding new_engine is_typed_nil is_nil_interface invoke valid_rule_id ascii contains str_eq
  builds s = refl

  module _ (backend : Backend) where
    after_validate-returns :
        (rest : Go W Call (Unit {0})) (r : Outcome (Option GoError) × State W Call)
        → ((continue r (after_validate rest)).0 ≡ returned tt)
          ↔ ((r.0 ≡ returned none) × ((rest r.1).0 ≡ returned tt))
    unfolding after_validate
    after_validate-returns rest (returned none, s) = (λ h. (refl, h), λ h. h.1)
    after_validate-returns rest (returned (some err), s) =
        (λ h. absurd (cc), λ h. absurd (let bad = h.0 in cc (bad)))
    after_validate-returns rest (panicked, s) =
        (λ h. absurd (cc), λ h. absurd (let bad = h.0 in cc (bad)))

    validate-Harmless :
        (sql : GoString) (s : State W Call)
        → ((validate backend probe_engine background sql s).0 ≡ returned none)
          ↔ Harmless backend sql
    validate-Harmless sql s =
        validate_builtins_iff backend probe_engine background sql s
          (update_where ∷ delete_where ∷ []) (λ w. (w, refl)) refl

    validate_queries-returns :
        (texts : List GoString) (s : State W Call)
        → ((validate_queries backend probe_engine texts s).0 ≡ returned tt)
          ↔ ((sql : GoString) → In sql texts → Harmless backend sql)
    unfolding validate_queries
    validate_queries-returns [] s = (λ h sql at. elim at [ ], λ h. refl)
    validate_queries-returns (sql ∷ texts) s =
        let r = validate backend probe_engine background sql s in
        let step = after_validate-returns (validate_queries backend probe_engine texts) r in
        let now = validate-Harmless sql s in
        let later = validate_queries-returns texts r.1 in
        (
          λ h q at. elim at [
            | here e ↦ subst (Harmless backend) (sym e) (now.0 (step.0 h).0)
            | there more ↦ later.0 (step.0 h).1 q more
          ],
          λ h. step.1 (now.1 (h sql (here refl)), later.1 (λ q at. h q (there at))),
        )

    -- The probe ends without a panic exactly when the backend parses each of its three texts and none of
    -- them has an UPDATE or a DELETE without a WHERE clause, in its WITH clauses either: its engine is always built.
    pub main-returns :
        (s : State W Call)
        → ((main backend s).0 ≡ returned tt)
          ↔ ((sql : GoString) → In sql queries → Harmless backend sql)
    unfolding main after_new_engine
    main-returns s =
        let r = new_engine no_options rules s in
        subst
          (λ o.
            ((continue (o, r.1) (after_new_engine backend)).0 ≡ returned tt)
            ↔ ((sql : GoString) → In sql queries → Harmless backend sql))
          (sym (builds s)) (validate_queries-returns queries r.1)
