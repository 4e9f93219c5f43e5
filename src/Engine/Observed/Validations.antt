-- ===== src/Engine/Observed/Validations.antt =====
-- engine.go: what `Validate` does to a part of the world that only the sinks change.
use postgres_sqlguard.Common.{◌≡◌, refl, ◌∙◌, [], Option, none, some, GoString, In, here, there}
use postgres_sqlguard.Parser.Result.{Result}
use postgres_sqlguard.Parser.Protobuf.{Backend}
use postgres_sqlguard.Parser.Convert.{ParseOutcome, parsed, failed, parse}
use postgres_sqlguard.Parser.Traversal.{statement_sequence}
use postgres_sqlguard.Errors.{GoError, translate_parser_error, err_invalid_prepared}
use postgres_sqlguard.Observability.{
  ValidationEvent, ValidationOutcome, enforce, new_validation_event, parser_failure, canceled,
  invalid_prepared,
}
use postgres_sqlguard.Runtime.{Outcome, returned, panicked, State, pure, continue, perform}
use postgres_sqlguard.Contracts.{Call, Context, Engine, Prepared, zero_prepared}
use postgres_sqlguard.Engine.{
  finish_validation, fail_prepare, conclude_prepare, parse_prepare, prepare, validate_result,
  validate_prepared, validate_after, validate,
}
use postgres_sqlguard.Engine.Runs.{finish_validation-Says}
use postgres_sqlguard.Engine.Events.{Describes, is_parse_failure, is_canceled, is_invalid_prepared}
use postgres_sqlguard.Engine.Observed.{
  event_space, Observes, Added, terminal-Added, run_statements-Added,
}

module _ {W X : Type 0} (e : Engine W) (ctx : Context W) (f : W → X)
    (R : ValidationEvent → X → X → Type 0) (o : Observes e ctx f R) where
  validate_result-Added :
      (x : X) (result : Option Result) (w : W) (r : Outcome (Option GoError) × State W Call)
      → (ctx.err w).0 ≡ r.0
      → f r.1.world ≡ x
      → Added e ctx f R x (continue r (validate_result e ctx result))
  unfolding validate_result new_validation_event
  validate_result-Added x result w (panicked, s) answered same = same
  validate_result-Added x result w (returned (some err), s) answered same =
      terminal-Added e ctx f R o canceled [] (some err) x s same (there (there (here refl)))
        (is_canceled answered)
  validate_result-Added x none w (returned none, s) answered same =
      terminal-Added e ctx f R o invalid_prepared [] (some err_invalid_prepared) x s same
        (there (there (there (here refl)))) is_invalid_prepared
  validate_result-Added x (some result) w (returned none, s) answered same =
      run_statements-Added e ctx f R o x (statement_sequence (some result)) s same

  pub validate_prepared-Added :
      (x : X) (p : Prepared) (s : State W Call)
      → f s.world ≡ x
      → Added e ctx f R x (validate_prepared e ctx p s)
  unfolding validate_prepared perform
  validate_prepared-Added x p s same =
      validate_result-Added x p.result s.world _ refl (o.context_keeps s.world ∙ same)

  -- What `Prepare` has added: an event with its error, or nothing yet.
  abbrev PrepareAdded : X → Outcome (Prepared × Option GoError) × State W Call → Type 0
  PrepareAdded x (returned (p, some err), s) = Added e ctx f R x (returned (some err), s)
  PrepareAdded x (returned (p, none), s) = f s.world ≡ x
  PrepareAdded x (panicked, s) = f s.world ≡ x

  failed-PrepareAdded :
      (x : X) (r : Outcome (Option GoError) × State W Call) (err : GoError)
      → r.0 ≡ returned (some err)
      → Added e ctx f R x r
      → PrepareAdded x (continue r (λ result. pure (zero_prepared, result)))
  failed-PrepareAdded x (returned (some y), s) err h added = added
  failed-PrepareAdded x (returned none, s) err h added = absurd (cc)
  failed-PrepareAdded x (panicked, s) err h added = added

  fail_prepare-PrepareAdded :
      (outcome : ValidationOutcome) (err : GoError) (x : X) (s : State W Call)
      → f s.world ≡ x
      → In (new_validation_event enforce outcome []) (event_space e)
      → Describes ctx (new_validation_event enforce outcome []) (some err)
      → PrepareAdded x (fail_prepare e outcome (some err) s)
  unfolding fail_prepare
  fail_prepare-PrepareAdded outcome err x s same at says =
      failed-PrepareAdded x (finish_validation e outcome [] (some err) s) err
        (finish_validation-Says e outcome [] (some err) s).outcome
        (terminal-Added e ctx f R o outcome [] (some err) x s same at says)

  conclude_prepare-PrepareAdded :
      (x : X) (outcome : ParseOutcome) (w : W) (r : Outcome (Option GoError) × State W Call)
      → (ctx.err w).0 ≡ r.0
      → f r.1.world ≡ x
      → PrepareAdded x (continue r (conclude_prepare e outcome))
  unfolding conclude_prepare new_validation_event translate_parser_error
  conclude_prepare-PrepareAdded x outcome w (panicked, s) answered same = same
  conclude_prepare-PrepareAdded x outcome w (returned (some err), s) answered same =
      fail_prepare-PrepareAdded canceled err x s same (there (there (here refl)))
        (is_canceled answered)
  conclude_prepare-PrepareAdded x (failed p) w (returned none, s) answered same =
      fail_prepare-PrepareAdded parser_failure _ x s same (there (here refl)) (is_parse_failure _)
  conclude_prepare-PrepareAdded x (parsed result) w (returned none, s) answered same = same

  parse_prepare-PrepareAdded :
      (backend : Backend) (x : X) (sql : GoString) (w : W)
      (r : Outcome (Option GoError) × State W Call)
      → (ctx.err w).0 ≡ r.0
      → f r.1.world ≡ x
      → PrepareAdded x (continue r (parse_prepare backend e ctx sql))
  unfolding parse_prepare perform new_validation_event
  parse_prepare-PrepareAdded backend x sql w (panicked, s) answered same = same
  parse_prepare-PrepareAdded backend x sql w (returned (some err), s) answered same =
      fail_prepare-PrepareAdded canceled err x s same (there (there (here refl)))
        (is_canceled answered)
  parse_prepare-PrepareAdded backend x sql w (returned none, s) answered same =
      conclude_prepare-PrepareAdded x (parse backend sql) s.world _ refl
        (o.context_keeps s.world ∙ same)

  validate_after-Added :
      (x : X) (r : Outcome (Prepared × Option GoError) × State W Call)
      → PrepareAdded x r
      → Added e ctx f R x (continue r (validate_after e ctx))
  unfolding validate_after
  validate_after-Added x (returned (p, some err), s) added = added
  validate_after-Added x (returned (p, none), s) same = validate_prepared-Added x p s same
  validate_after-Added x (panicked, s) same = same

  -- `Validate`, when it returns, changes the part by one event of the engine's, which describes
  -- the result; when it panics, it leaves the part alone.
  pub validate-Added :
      (backend : Backend) (sql : GoString) (s : State W Call)
      → Added e ctx f R (f s.world) (validate backend e ctx sql s)
  unfolding validate prepare perform
  validate-Added backend sql s =
      validate_after-Added (f s.world) _ (
        parse_prepare-PrepareAdded backend (f s.world) sql s.world _ refl (o.context_keeps s.world))
