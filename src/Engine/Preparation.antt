-- ===== src/Engine/Preparation.antt =====
-- engine.go: what follows from a preparation that returns no error, for any context and rules.
use postgres_sqlguard.Common.{◌≡◌, refl, sym, ap, [], Option, none, some, GoString}
use postgres_sqlguard.Parser.Result.{Result}
use postgres_sqlguard.Parser.Protobuf.{Backend}
use postgres_sqlguard.Parser.Convert.{ParseOutcome, parsed, failed, parse}
use postgres_sqlguard.Errors.{GoError, translate_parser_error}
use postgres_sqlguard.Observability.{ValidationOutcome}
use postgres_sqlguard.Runtime.{Outcome, returned, panicked, State, continue, perform}
use postgres_sqlguard.Contracts.{Call, Context, Engine, Prepared, zero_prepared}
use postgres_sqlguard.Engine.{
  fail_prepare, conclude_prepare, parse_prepare, prepare, finish_validation,
}
use postgres_sqlguard.Engine.Runs.{finish_validation-Says}

-- The parts of what `Prepare` returns.
abbrev error_of : Outcome (Prepared × Option GoError) → Option GoError
error_of (returned (p, err)) = err
error_of panicked = none

abbrev result_of : Outcome (Prepared × Option GoError) → Option Result
result_of (returned (p, err)) = p.result
result_of panicked = none

module _ {W : Type 0} (e : Engine W) where
  module _ (ctx : Context W) where
    -- A preparation gave `p` and no error.
    abbrev pub Succeeds : Prepared → Outcome (Prepared × Option GoError) × State W Call → Type 0
    Succeeds p r = r.0 ≡ returned (p, none)

    fail_prepare-not :
        (p : Prepared) (o : ValidationOutcome) (err : GoError) (s : State W Call)
        → ¬ Succeeds p (fail_prepare e o (some err) s)
    unfolding fail_prepare
    fail_prepare-not p o err s =
        other (finish_validation e o [] (some err) s)
          (finish_validation-Says e o [] (some err) s).outcome
      where
        other :
            (f : Outcome (Option GoError) × State W Call)
            → f.0 ≡ returned (some err)
            → ¬ Succeeds p (continue f (λ r s'. (returned (zero_prepared, r), s')))
        other (returned none, s') h eq = cc
        other (returned (some x), s') h eq = cc (ap error_of eq)
        other (panicked, s') h eq = cc

    conclude_prepare-parsed :
        (p : Prepared) (outcome : ParseOutcome) (q : Outcome (Option GoError)) (s : State W Call)
        → Succeeds p (continue (q, s) (conclude_prepare e outcome))
        → (r : Result) × (outcome ≡ parsed r) × (p.result ≡ some r)
    unfolding conclude_prepare translate_parser_error
    conclude_prepare-parsed p outcome panicked s h = absurd (cc)
    conclude_prepare-parsed p outcome (returned (some err)) s h =
        absurd (fail_prepare-not p _ err s h)
    conclude_prepare-parsed p (failed x) (returned none) s h = absurd (fail_prepare-not p _ _ s h)
    conclude_prepare-parsed p (parsed r) (returned none) s h = (r, refl, sym (ap result_of h))

    parse_prepare-parsed :
        (backend : Backend) (sql : GoString) (p : Prepared) (q : Outcome (Option GoError))
        (s : State W Call)
        → Succeeds p (continue (q, s) (parse_prepare backend e ctx sql))
        → (r : Result) × (parse backend sql ≡ parsed r) × (p.result ≡ some r)
    unfolding parse_prepare perform
    parse_prepare-parsed backend sql p panicked s h = absurd (cc)
    parse_prepare-parsed backend sql p (returned (some err)) s h =
        absurd (fail_prepare-not p _ err s h)
    parse_prepare-parsed backend sql p (returned none) s h =
        conclude_prepare-parsed p (parse backend sql) (ctx.err s.world).0 _ h

    pub prepare-parsed :
        (backend : Backend) (sql : GoString) (p : Prepared) (s : State W Call)
        → Succeeds p (prepare backend e ctx sql s)
        → (r : Result) × (parse backend sql ≡ parsed r) × (p.result ≡ some r)
    unfolding prepare perform
    prepare-parsed backend sql p s h = parse_prepare-parsed backend sql p (ctx.err s.world).0 _ h
