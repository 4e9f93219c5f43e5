-- ===== src/Engine/Messages.antt =====
-- What the errors that `Validate` of engine.go returns disclose.
use postgres_sqlguard.Common.{
  ℕ, ◌≡◌, ◌⊎◌, inl, inr, refl, ap, List, [], ◌∷◌, Option, none, some, GoString, In, here, there,
}
use postgres_sqlguard.Parser.Result.{Result}
use postgres_sqlguard.Parser.Protobuf.{Backend}
use postgres_sqlguard.Errors.{
  GoError, error_text, as_parser_error, violation_message, parse_error_message, new_violation,
  translate_parser_error,
}
use postgres_sqlguard.Runtime.{Outcome, returned, panicked, State}
use postgres_sqlguard.Contracts.{Call, Context, Engine}
use postgres_sqlguard.Engine.{validate}
use postgres_sqlguard.Engine.Schedule.{
  Round, Run, finished, passed, violated, stopped, err_panic, rule_panic,
}
use postgres_sqlguard.Engine.Session.{
  PreparedRun, ended, broken, unprepared, evaluating, Session, ended_before, broken_before,
  ended_after, broken_after, unparsed, prepared,
}
use postgres_sqlguard.Engine.Refines.{validate-Session}

-- The message is one of two, whatever was validated, and no error of the parser is on its chain.
pub record IsFixed (err : GoError) : Type 0 where
  pub message :
      (text : ℕ → GoString)
      → In (error_text text err) (violation_message ∷ parse_error_message ∷ [])
  pub no_parser_error : as_parser_error err ≡ none

violation-IsFixed : (id : GoString) → IsFixed (new_violation id)
unfolding new_violation error_text as_parser_error
violation-IsFixed id = record { message = λ text. here refl; no_parser_error = refl }

module _ {W : Type 0} (ctx : Context W) where
  -- An error that the context has returned.
  abbrev pub FromContext : GoError → Type 0
  FromContext err = (w : W) × ((ctx.err w).0 ≡ returned (some err))

  abbrev pub Discreet : Outcome (Option GoError) → Type 0
  Discreet (returned (some err)) = FromContext err ⊎ IsFixed err
  Discreet (returned none) = Unit
  Discreet panicked = Unit

  module _ (e : Engine W) where
    Run-Discreet :
        {rounds : List (Round W)} {w : W} {calls : List Call} {o : Outcome (Option GoError)}
        → Run e ctx rounds w calls o
        → Discreet o
    Run-Discreet finished = tt
    Run-Discreet (passed live answered granted run) = Run-Discreet run
    Run-Discreet (violated {reg = reg} live answered denied) = inr (violation-IsFixed reg.rule_id)
    Run-Discreet (stopped {w = w} over) = inl (w, ap (λ r. r.0) over)
    Run-Discreet (err_panic over) = tt
    Run-Discreet (rule_panic live over) = tt

    PreparedRun-Discreet :
        {r : Result} {w : W} {calls : List Call} {o : Outcome (Option GoError)}
        → PreparedRun e ctx (some r) w calls o
        → Discreet o
    PreparedRun-Discreet {w = w} (ended over) = inl (w, ap (λ r. r.0) over)
    PreparedRun-Discreet (broken over) = tt
    PreparedRun-Discreet (unprepared live absent) = absurd (cc)
    PreparedRun-Discreet (evaluating live present run) = Run-Discreet run

    module _ (backend : Backend) (sql : GoString) where
      Session-Discreet :
          {w : W} {calls : List Call} {o : Outcome (Option GoError)}
          → Session backend e ctx sql w calls o
          → Discreet o
      unfolding translate_parser_error error_text as_parser_error
      Session-Discreet {w = w} (ended_before over) = inl (w, ap (λ r. r.0) over)
      Session-Discreet (broken_before over) = tt
      Session-Discreet (ended_after {w' = w'} live over) = inl (w', ap (λ r. r.0) over)
      Session-Discreet (broken_after live over) = tt
      Session-Discreet (unparsed live still parsing) =
          inr (record { message = λ text. there (here refl); no_parser_error = refl })
      Session-Discreet (prepared live still parsing run) = PreparedRun-Discreet run

      -- An error that `Validate` returns is one that the context has returned, or its message is one of two fixed
      -- ones, for a violation and for a text that does not parse, whatever the text, the statements and the
      -- rules; no error of the parser can then be found on its chain.
      pub validate-Discreet : (s : State W Call) → Discreet (validate backend e ctx sql s).0
      validate-Discreet s =
          let (calls, trace, run) = validate-Session e ctx backend sql s in Session-Discreet run
