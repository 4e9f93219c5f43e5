-- ===== src/Engine/Session.antt =====
-- What `ValidatePrepared` and `Validate` of engine.go are to do, call by call.
use postgres_sqlguard.Common.{◌≡◌, List, [], ◌∷◌, Option, none, some, GoString}
use postgres_sqlguard.Parser.Result.{Result, ParserError}
use postgres_sqlguard.Parser.Protobuf.{Backend}
use postgres_sqlguard.Parser.Convert.{parsed, failed, parse}
use postgres_sqlguard.Parser.Traversal.{statement_sequence}
use postgres_sqlguard.Errors.{GoError, parser_error, translate_parser_error, err_invalid_prepared}
use postgres_sqlguard.Observability.{parser_failure, canceled, invalid_prepared}
use postgres_sqlguard.Runtime.{Outcome, returned, panicked}
use postgres_sqlguard.Contracts.{Call, err_read, parsed_sql, Context, Engine}
use postgres_sqlguard.Engine.Schedule.{terminal_calls, schedule, Run}

module _ {W : Type 0} where
  -- `ValidatePrepared` of a result (nil: `none`) from a world.
  pub data PreparedRun (e : Engine W) (ctx : Context W) (result : Option Result) (w : W)
      : List Call → Outcome (Option GoError) → Type 0 where
    ended :
        {w' : W} {err : GoError}
        → ctx.err w ≡ (returned (some err), w')
        → PreparedRun e ctx result w (err_read ∷ terminal_calls e canceled []) (returned (some err))
    broken :
        {w' : W} → ctx.err w ≡ (panicked, w') → PreparedRun e ctx result w (err_read ∷ []) panicked
    unprepared :
        {w' : W}
        → ctx.err w ≡ (returned none, w')
        → result ≡ none
        → PreparedRun e ctx result w
            (err_read ∷ terminal_calls e invalid_prepared [])
            (returned (some err_invalid_prepared))
    evaluating :
        {w' : W} {r : Result} {calls : List Call} {o : Outcome (Option GoError)}
        → ctx.err w ≡ (returned none, w')
        → result ≡ some r
        → Run e ctx (schedule e.rules (statement_sequence (some r))) w' calls o
        → PreparedRun e ctx result w (err_read ∷ calls) o

  -- `Validate` of an SQL text from a world: the context is read before and after the parse.
  pub data Session (backend : Backend) (e : Engine W) (ctx : Context W) (sql : GoString) (w : W)
      : List Call → Outcome (Option GoError) → Type 0 where
    ended_before :
        {w' : W} {err : GoError}
        → ctx.err w ≡ (returned (some err), w')
        → Session backend e ctx sql w
            (err_read ∷ terminal_calls e canceled [])
            (returned (some err))
    broken_before :
        {w' : W} → ctx.err w ≡ (panicked, w') → Session backend e ctx sql w (err_read ∷ []) panicked
    ended_after :
        {w' w'' : W} {err : GoError}
        → ctx.err w ≡ (returned none, w')
        → ctx.err w' ≡ (returned (some err), w'')
        → Session backend e ctx sql w
            (err_read ∷ parsed_sql sql ∷ err_read ∷ terminal_calls e canceled [])
            (returned (some err))
    broken_after :
        {w' w'' : W}
        → ctx.err w ≡ (returned none, w')
        → ctx.err w' ≡ (panicked, w'')
        → Session backend e ctx sql w (err_read ∷ parsed_sql sql ∷ err_read ∷ []) panicked
    unparsed :
        {w' w'' : W} {p : ParserError}
        → ctx.err w ≡ (returned none, w')
        → ctx.err w' ≡ (returned none, w'')
        → parse backend sql ≡ failed p
        → Session backend e ctx sql w
            (err_read ∷ parsed_sql sql ∷ err_read ∷ terminal_calls e parser_failure [])
            (returned (translate_parser_error (some (parser_error (some p)))))
    prepared :
        {w' w'' : W} {r : Result} {calls : List Call} {o : Outcome (Option GoError)}
        → ctx.err w ≡ (returned none, w')
        → ctx.err w' ≡ (returned none, w'')
        → parse backend sql ≡ parsed r
        → PreparedRun e ctx (some r) w'' calls o
        → Session backend e ctx sql w (err_read ∷ parsed_sql sql ∷ err_read ∷ calls) o
