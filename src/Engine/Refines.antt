-- ===== src/Engine/Refines.antt =====
-- engine.go: `ValidatePrepared` and `Validate` against their sessions.
use postgres_sqlguard.Common.{
  ◌≡◌, refl, ◌∙◌, List, [], ◌∷◌, ◌++◌, append_assoc, Option, none, some, GoString,
}
use postgres_sqlguard.Parser.Result.{Result}
use postgres_sqlguard.Parser.Protobuf.{Backend}
use postgres_sqlguard.Parser.Convert.{ParseOutcome, parsed, failed, parse}
use postgres_sqlguard.Parser.Traversal.{statement_sequence}
use postgres_sqlguard.Errors.{GoError, translate_parser_error, err_invalid_prepared}
use postgres_sqlguard.Observability.{ValidationOutcome, parser_failure, canceled, invalid_prepared}
use postgres_sqlguard.Runtime.{Outcome, returned, panicked, State, continue, perform}
use postgres_sqlguard.Contracts.{
  Call, err_read, parsed_sql, Context, Engine, Prepared, zero_prepared,
}
use postgres_sqlguard.Engine.{
  fail_prepare, conclude_prepare, parse_prepare, prepare, validate_result, validate_prepared,
  validate_after, validate,
}
use postgres_sqlguard.Engine.Schedule.{terminal_calls}
use postgres_sqlguard.Engine.Runs.{Says, finish_validation-Says, run_statements-Runs}
use postgres_sqlguard.Engine.Session.{
  PreparedRun, ended, broken, unprepared, evaluating, Session, ended_before, broken_before,
  ended_after, broken_after, unparsed, prepared,
}

module _ {W : Type 0} (e : Engine W) (ctx : Context W) where
  -- A result, with the calls made since a state.
  abbrev From :
      (List Call → Outcome (Option GoError) → Type 0)
      → State W Call
      → Outcome (Option GoError) × State W Call
      → Type 0
  From R s r = (calls : List Call) × (r.1.trace ≡ s.trace ++ calls) × R calls r.0

  abbrev noted : State W Call → W → List Call → State W Call
  noted s w calls = record { world = w; trace = s.trace ++ calls }

  validated :
      (result : Option Result) (s : State W Call) (p : Outcome (Option GoError) × W)
      → ctx.err s.world ≡ p
      → From
          (PreparedRun e ctx result s.world)
          s
          (continue (p.0, noted s p.1 (err_read ∷ [])) (validate_result e ctx result))
  unfolding validate_result
  validated result s (panicked, w) eq = (err_read ∷ [], refl, broken eq)
  validated result s (returned (some err), w) eq =
      let says = finish_validation-Says e canceled [] (some err) (noted s w (err_read ∷ [])) in
      (
        err_read ∷ terminal_calls e canceled [],
        says.trace ∙ append_assoc s.trace (err_read ∷ []) _,
        rw says.outcome (ended eq),
      )
  validated none s (returned none, w) eq =
      let says =
        finish_validation-Says e invalid_prepared [] (some err_invalid_prepared)
          (noted s w (err_read ∷ [])) in
      (
        err_read ∷ terminal_calls e invalid_prepared [],
        says.trace ∙ append_assoc s.trace (err_read ∷ []) _,
        rw says.outcome (unprepared eq refl),
      )
  validated (some r) s (returned none, w) eq =
      let (calls, trace, run) =
        run_statements-Runs e ctx (statement_sequence (some r)) (noted s w (err_read ∷ [])) in
      (err_read ∷ calls, trace ∙ append_assoc s.trace (err_read ∷ []) calls, evaluating eq refl run)

  -- From every state, `ValidatePrepared` makes the calls of a run and ends as the run does: the
  -- context is read first, then the rounds of the schedule are made in order up to the first
  -- rejection, the end of the context or a panic, and a run that returns hands one terminal event to the enabled
  -- sinks, as its last calls.
  pub validate_prepared-PreparedRun :
      (p : Prepared) (s : State W Call)
      → (calls : List Call) × ((validate_prepared e ctx p s).1.trace ≡ s.trace ++ calls)
        × PreparedRun e ctx p.result s.world calls (validate_prepared e ctx p s).0
  unfolding validate_prepared perform
  validate_prepared-PreparedRun p s = validated p.result s (ctx.err s.world) refl

  module _ (backend : Backend) (sql : GoString) where
    -- A failed preparation ends the validation with its error.
    failed-after :
        (f : Outcome (Option GoError) × State W Call) (err : GoError) (s : State W Call)
        (calls : List Call)
        → Says f s (returned (some err)) calls
        → Says
            (continue
              (continue f (λ r s'. (returned (zero_prepared, r), s')))
              (validate_after e ctx))
            s
            (returned (some err))
            calls
    unfolding validate_after
    failed-after (returned (some x), s') err s calls h = record {
      outcome = h.outcome;
      trace = h.trace;
    }
    failed-after (returned none, s') err s calls h = cc (h.outcome)
    failed-after (panicked, s') err s calls h = cc (h.outcome)

    fail_prepare-Says :
        (o : ValidationOutcome) (err : GoError) (s : State W Call)
        → Says
            (continue (fail_prepare e o (some err) s) (validate_after e ctx))
            s
            (returned (some err))
            (terminal_calls e o [])
    unfolding fail_prepare
    fail_prepare-Says o err s = failed-after _ err s _ (finish_validation-Says e o [] (some err) s)

    module _ (s : State W Call) where
      abbrev looked : W → State W Call
      looked w = record {
        world = w;
        trace = ((s.trace ++ err_read ∷ []) ++ parsed_sql sql ∷ []) ++ err_read ∷ [];
      }

      regroup_nil : (looked s.world).trace ≡ s.trace ++ err_read ∷ parsed_sql sql ∷ err_read ∷ []
      regroup_nil =
          append_assoc (s.trace ++ err_read ∷ []) (parsed_sql sql ∷ []) (err_read ∷ [])
          ∙ append_assoc s.trace (err_read ∷ []) (parsed_sql sql ∷ err_read ∷ [])

      regroup :
          (calls : List Call)
          → (looked s.world).trace ++ calls
            ≡ s.trace ++ err_read ∷ parsed_sql sql ∷ err_read ∷ calls
      regroup calls =
          append_assoc ((s.trace ++ err_read ∷ []) ++ parsed_sql sql ∷ []) (err_read ∷ []) calls
          ∙ append_assoc (s.trace ++ err_read ∷ []) (parsed_sql sql ∷ []) (err_read ∷ calls)
          ∙ append_assoc s.trace (err_read ∷ []) (parsed_sql sql ∷ err_read ∷ calls)

      concluded :
          (outcome : ParseOutcome)
          → parse backend sql ≡ outcome
          → {w : W} → ctx.err s.world ≡ (returned none, w)
          → (q : Outcome (Option GoError) × W) → ctx.err w ≡ q
          → From (Session backend e ctx sql s.world) s (
              continue
                (continue (q.0, looked q.1) (conclude_prepare e outcome))
                (validate_after e ctx))
      unfolding conclude_prepare translate_parser_error validate_after
      concluded outcome parsing first (panicked, w') eq =
          (err_read ∷ parsed_sql sql ∷ err_read ∷ [], regroup_nil, broken_after first eq)
      concluded outcome parsing first (returned (some err), w') eq =
          let says = fail_prepare-Says canceled err (looked w') in
          (
            err_read ∷ parsed_sql sql ∷ err_read ∷ terminal_calls e canceled [],
            says.trace ∙ regroup _,
            rw says.outcome (ended_after first eq),
          )
      concluded (failed p) parsing first (returned none, w') eq =
          let says = fail_prepare-Says parser_failure _ (looked w') in
          (
            err_read ∷ parsed_sql sql ∷ err_read ∷ terminal_calls e parser_failure [],
            says.trace ∙ regroup _,
            rw says.outcome (unparsed first eq parsing),
          )
      concluded (parsed r) parsing first (returned none, w') eq =
          let (calls, trace, run) =
            validate_prepared-PreparedRun (record { result = some r }) (looked w') in
          (
            err_read ∷ parsed_sql sql ∷ err_read ∷ calls,
            trace ∙ regroup calls,
            prepared first eq parsing run,
          )

      session :
          (p : Outcome (Option GoError) × W)
          → ctx.err s.world ≡ p
          → From (Session backend e ctx sql s.world) s (
              continue
                (continue (p.0, noted s p.1 (err_read ∷ [])) (parse_prepare backend e ctx sql))
                (validate_after e ctx))
      unfolding parse_prepare perform
      session (panicked, w) eq = (err_read ∷ [], refl, broken_before eq)
      session (returned (some err), w) eq =
          let says = fail_prepare-Says canceled err (noted s w (err_read ∷ [])) in
          (
            err_read ∷ terminal_calls e canceled [],
            says.trace ∙ append_assoc s.trace (err_read ∷ []) _,
            rw says.outcome (ended_before eq),
          )
      session (returned none, w) eq = concluded (parse backend sql) refl eq (ctx.err w) refl

    -- From every state, `Validate` makes the calls of a session and ends as the session does: the
    -- context is read before and after the parse of the whole text; a text that does not parse
    -- gives the translated parser error and no rule is asked; otherwise the result is validated
    -- as by `ValidatePrepared`.
    pub validate-Session :
        (s : State W Call)
        → (calls : List Call) × ((validate backend e ctx sql s).1.trace ≡ s.trace ++ calls)
          × Session backend e ctx sql s.world calls (validate backend e ctx sql s).0
    unfolding validate prepare perform
    validate-Session s = session s (ctx.err s.world) refl
