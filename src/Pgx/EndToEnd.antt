-- ===== src/Pgx/EndToEnd.antt =====
-- A wrapper of example/pgx/guarded.go with an engine for its validator.
use postgres_sqlguard.Common.{
  ◌≡◌, ◌≢◌, refl, sym, ap, ◌∙◌, subst, false, List, [], ◌∷◌, ◌++◌, Option, none, GoString, In, ℕ,
}
use postgres_sqlguard.Errors.{GoError}
use postgres_sqlguard.Parser.Result.{Result}
use postgres_sqlguard.Parser.Protobuf.{Backend}
use postgres_sqlguard.Parser.Convert.{parsed, parse}
use postgres_sqlguard.Runtime.{Outcome, returned, State}
use postgres_sqlguard.Interface.{Interface, holds, pointer_kind, invoke}
use postgres_sqlguard.Contracts.{Call, Context, Engine}
use postgres_sqlguard.Engine.{validate}
use postgres_sqlguard.Engine.Session.{Session}
use postgres_sqlguard.Engine.Refines.{validate-Session}
use postgres_sqlguard.Engine.Evaluations.{evaluations, all_pairs, Session-all}
use postgres_sqlguard.PgxPrepared.{Setting, Executor, query_rewriter}
use postgres_sqlguard.PgxPrepared.Runs.{Request, ctx_of, sql_of, arguments_of, NoRewriter}
use postgres_sqlguard.PgxPrepared.EndToEnd.{engine_setting}
use postgres_sqlguard.Pgx.{Validator, GuardedDb, DbCall, validated_text}
use postgres_sqlguard.Pgx.Protocol.{
  Executes, rewritten, rejected_before, delegated, RequestRuns, all_served, served, serve_all,
  serve_all-RequestRuns,
}

module _ {W : Type 0} (e : Engine W) (backend : Backend) (Tag Rows Row : Type 0)
    (zero_tag : Tag) where
  abbrev pub setting : Setting
  setting = engine_setting e backend Tag Rows Row zero_tag

  -- `*Engine` as a `Validator`.
  abbrev pub engine_validator : Validator setting
  engine_validator = record { validate = λ ctx sql. validate backend e ctx sql }

  module _ (executor : Interface (Executor setting)) where
    abbrev pub engine_db : GuardedDb setting
    engine_db = record {
      validator = holds pointer_kind false engine_validator;
      executor = executor;
    }

    -- A call of `Validate` between two states of the engine that has allowed the text: the text
    -- parses, and every rule was asked about every statement of what it parses to.
    pub record Clears (ctx : Context W) (sql : GoString) (before after : State W Call)
        : Type 0 where
      pub validates : validate backend e ctx sql before ≡ (returned none, after)
      pub result : Result
      pub parsing : parse backend sql ≡ parsed result
      pub calls : List Call
      pub trace : after.trace ≡ before.trace ++ calls
      pub session : Session backend e ctx sql before.world calls (returned none)
      pub all : evaluations calls ≡ all_pairs e ctx result

    -- Requests one after the other, with what the engine does for each.
    pub data EngineRuns
        : State W Call → List (Request setting) → List DbCall → State W Call → Type 0 where
      all_done : {s : State W Call} → EngineRuns s [] [] s
      replaced :
          {request : Request setting} {requests : List (Request setting)} {calls : List DbCall}
          {s t : State W Call} {n : ℕ}
          → In (query_rewriter n) (arguments_of request)
          → EngineRuns s requests calls t
          → EngineRuns s (request ∷ requests) calls t
      refused :
          {request : Request setting} {requests : List (Request setting)} {calls : List DbCall}
          {s s' t : State W Call} {o : Outcome (Option GoError)}
          → NoRewriter (arguments_of request)
          → validate backend e (ctx_of request) (sql_of request) s ≡ (o, s')
          → o ≢ returned none
          → EngineRuns s' requests calls t
          → EngineRuns s (request ∷ requests) (validated_text (sql_of request) ∷ calls) t
      handed :
          {request : Request setting} {requests : List (Request setting)} {calls : List DbCall}
          {call : DbCall} {s s' s'' t : State W Call}
          → NoRewriter (arguments_of request)
          → Clears (ctx_of request) (sql_of request) s s'
          → Executes engine_db s' request call s''
          → EngineRuns s'' requests calls t
          → EngineRuns s (request ∷ requests) (validated_text (sql_of request) ∷ call ∷ calls) t

    allowed-Clears :
        (ctx : Context W) (sql : GoString) (s t : State W Call)
        → validate backend e ctx sql s ≡ (returned none, t)
        → Clears ctx sql s t
    allowed-Clears ctx sql s t h =
        let (calls, trace, run) = validate-Session e ctx backend sql s in
        let run' : Session backend e ctx sql s.world calls (returned none) =
          subst (λ o. Session backend e ctx sql s.world calls o) (ap (λ q. q.0) h) run in
        let (r, parsing, all) = Session-all e ctx backend sql run' refl in
        record {
          validates = h;
          result = r;
          parsing = parsing;
          calls = calls;
          trace = sym (ap (λ q. q.1.trace) h) ∙ trace;
          session = run';
          all = all;
        }

    runs-EngineRuns :
        {s t : State W Call} {requests : List (Request setting)} {calls : List DbCall}
        → RequestRuns engine_db s requests calls t
        → EngineRuns s requests calls t
    unfolding invoke
    runs-EngineRuns all_served = all_done
    runs-EngineRuns (served (rewritten at) runs) = replaced at (runs-EngineRuns runs)
    runs-EngineRuns (served (rejected_before clean h not_nil) runs) =
        refused clean h not_nil (runs-EngineRuns runs)
    runs-EngineRuns (served (delegated clean h executes) runs) =
        handed clean (allowed-Clears _ _ _ _ h) executes (runs-EngineRuns runs)

    -- Any requests to a wrapper of an engine, one after the other, from any state of the engine's
    -- world, follow the runs of those requests from that state, call by call. A request with a query
    -- rewriter among its arguments makes no call. Any other is validated by the engine, and the
    -- executor is called for it only if this very call of `Validate`, under the request's own context, returned nil, right
    -- before the executor's call and in the state that it starts from: the text parses, and in that call of `Validate` every
    -- registered rule was asked about every statement of what the text parses to and allowed it,
    -- for any contexts, rules and executor.
    pub serve_all-EngineRuns :
        (s : State W Call) (requests : List (Request setting))
        → (calls : List DbCall) × ((serve_all engine_db
              (record { world = s; trace = [] })
              requests).trace
            ≡ calls)
          × EngineRuns s requests calls
              (serve_all engine_db (record { world = s; trace = [] }) requests).world
    serve_all-EngineRuns s requests =
        let (calls, trace, runs) =
          serve_all-RequestRuns engine_db (record { world = s; trace = [] }) requests in
        (calls, trace, runs-EngineRuns runs)
