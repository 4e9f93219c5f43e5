-- ===== src/Engine/Verdicts.antt =====
-- The result of a validation as a function of the world, and of the decisions of the rules.
use postgres_sqlguard.Common.{
  ◌≡◌, refl, sym, ◌∙◌, ap, List, [], ◌∷◌, Option, none, some, GoString, if◌then◌else◌,
}
use postgres_sqlguard.Parser.Result.{Result}
use postgres_sqlguard.Parser.Protobuf.{Backend}
use postgres_sqlguard.Parser.Convert.{ParseOutcome, parsed, failed, parse}
use postgres_sqlguard.Parser.Traversal.{statement_sequence}
use postgres_sqlguard.Rule.{RuleResult, rejected}
use postgres_sqlguard.Errors.{GoError, parser_error, new_violation, translate_parser_error}
use postgres_sqlguard.Runtime.{Outcome, returned, panicked, State}
use postgres_sqlguard.Interface.{Interface}
use postgres_sqlguard.Contracts.{Call, Context, Metrics, Logger, RegisteredRule, Engine}
use postgres_sqlguard.Engine.{validate}
use postgres_sqlguard.Engine.Schedule.{
  Round, answer_of, schedule, Run, finished, passed, violated, stopped, err_panic, rule_panic,
}
use postgres_sqlguard.Engine.Session.{
  PreparedRun, ended, broken, unprepared, evaluating, Session, ended_before, broken_before,
  ended_after, broken_after, unparsed, prepared,
}
use postgres_sqlguard.Engine.Refines.{validate-Session}

module _ {W : Type 0} where
  -- Goes on from a look at the context.
  abbrev pub look :
      Outcome (Option GoError) × W → (W → Outcome (Option GoError)) → Outcome (Option GoError)
  look (returned none, w) go_on = go_on w
  look (returned (some err), w) go_on = returned (some err)
  look (panicked, w) go_on = panicked

  -- Goes on from the answer of a rule.
  abbrev pub heed :
      GoString → Outcome RuleResult × W → (W → Outcome (Option GoError)) → Outcome (Option GoError)
  heed id (returned answer, w) go_on =
      if rejected answer then returned (some (new_violation id)) else go_on w
  heed id (panicked, w) go_on = panicked

  unfoldable pub verdict : Context W → List (Round W) → W → Outcome (Option GoError)
  verdict ctx [] w = returned none
  verdict ctx ((reg, st) ∷ rounds) w =
      look (ctx.err w) (λ w'. heed reg.rule_id (answer_of ctx (reg, st) w') (verdict ctx rounds))

  -- What follows the parse.
  abbrev pub after_parse :
      Context W → List (RegisteredRule W) → ParseOutcome → W → Outcome (Option GoError)
  after_parse ctx rules (failed p) w =
      returned (translate_parser_error (some (parser_error (some p))))
  after_parse ctx rules (parsed r) w =
      look (ctx.err w) (verdict ctx (schedule rules (statement_sequence (some r))))

  -- The result of `Validate`, with no sink in sight.
  unfoldable pub full_verdict :
      Backend → Context W → List (RegisteredRule W) → GoString → W → Outcome (Option GoError)
  unfolding verdict
  full_verdict backend ctx rules sql w =
      look (ctx.err w) (λ w'. look (ctx.err w') (after_parse ctx rules (parse backend sql)))

  module _ (e : Engine W) (ctx : Context W) where
    Run-verdict :
        {rounds : List (Round W)} {w : W} {calls : List Call} {o : Outcome (Option GoError)}
        → Run e ctx rounds w calls o
        → o ≡ verdict ctx rounds w
    unfolding verdict
    Run-verdict finished = refl
    Run-verdict (passed live answered granted run) = rw (live, answered, granted) (Run-verdict run)
    Run-verdict (violated live answered denied) = rw (live, answered, denied) refl
    Run-verdict (stopped over) = rw over refl
    Run-verdict (err_panic over) = rw over refl
    Run-verdict (rule_panic live over) = rw (live, over) refl

    pub PreparedRun-verdict :
        (r : Result) {w : W} {calls : List Call} {o : Outcome (Option GoError)}
        → PreparedRun e ctx (some r) w calls o
        → o ≡ look (ctx.err w) (verdict ctx (schedule e.rules (statement_sequence (some r))))
    PreparedRun-verdict r (ended over) = rw over refl
    PreparedRun-verdict r (broken over) = rw over refl
    PreparedRun-verdict r (unprepared live absent) = cc
    PreparedRun-verdict r (evaluating {w' = w'} live present run) = rw live (
        Run-verdict run
        ∙ ap (λ x. verdict ctx (schedule e.rules (statement_sequence x)) w') (sym present))

    Session-verdict :
        (backend : Backend) (sql : GoString) {w : W} {calls : List Call}
        {o : Outcome (Option GoError)}
        → Session backend e ctx sql w calls o
        → o ≡ full_verdict backend ctx e.rules sql w
    unfolding full_verdict
    Session-verdict backend sql (ended_before over) = rw over refl
    Session-verdict backend sql (broken_before over) = rw over refl
    Session-verdict backend sql (ended_after live over) = rw (live, over) refl
    Session-verdict backend sql (broken_after live over) = rw (live, over) refl
    Session-verdict backend sql (unparsed live still parsing) = rw (live, still, parsing) refl
    Session-verdict backend sql (prepared {r = r} live still parsing run) =
        rw (live, still, parsing) (PreparedRun-verdict r run)

    pub validate-full_verdict :
        (backend : Backend) (sql : GoString) (s : State W Call)
        → (validate backend e ctx sql s).0 ≡ full_verdict backend ctx e.rules sql s.world
    validate-full_verdict backend sql s =
        let (calls, trace, run) = validate-Session e ctx backend sql s in
        Session-verdict backend sql run

  -- The result of `Validate`, a panic included, does not depend on the sinks: with any other
  -- metrics and logger, none or failing or panicking ones too, the same rules give the same result from the same world.
  pub validate-any_sinks :
      (backend : Backend) (rules : List (RegisteredRule W)) (m m' : Interface (Metrics W))
      (l l' : Interface (Logger W)) (ctx : Context W) (sql : GoString) (s : State W Call)
      → (validate backend (record { rules = rules; metrics = m; logger = l }) ctx sql s).0
        ≡ (validate backend (record { rules = rules; metrics = m'; logger = l' }) ctx sql s).0
  validate-any_sinks backend rules m m' l l' ctx sql s =
      validate-full_verdict (record { rules = rules; metrics = m; logger = l }) ctx backend sql s
      ∙ sym (
          validate-full_verdict (record { rules = rules; metrics = m'; logger = l' }) ctx backend
            sql s)
