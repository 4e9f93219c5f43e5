-- ===== src/PgxPrepared/EndToEnd.antt =====
-- The wrapper of example/pgx-prepared/guarded.go with an engine for its validator.
use postgres_sqlguard.Common.{
  ◌≡◌, ◌≢◌, ◌⊎◌, inl, inr, refl, sym, ap, ◌∙◌, subst, false, List, [], ◌∷◌, ◌++◌, append_assoc,
  Option, none, some, GoString, ℤ, In, here, there, ℕ,
}
use postgres_sqlguard.Errors.{GoError}
use postgres_sqlguard.Parser.Result.{Result}
use postgres_sqlguard.Parser.Protobuf.{Backend}
use postgres_sqlguard.Parser.Convert.{parsed, parse}
use postgres_sqlguard.Runtime.{Outcome, returned, State}
use postgres_sqlguard.Interface.{Interface, holds, pointer_kind, invoke}
use postgres_sqlguard.Contracts.{Call, Context, Engine, Prepared}
use postgres_sqlguard.Engine.{prepare, validate_prepared}
use postgres_sqlguard.Engine.Session.{PreparedRun}
use postgres_sqlguard.Engine.Refines.{validate_prepared-PreparedRun}
use postgres_sqlguard.Engine.Evaluations.{evaluations, all_pairs, PreparedRun-all}
use postgres_sqlguard.Engine.Preparation.{prepare-parsed}
use postgres_sqlguard.PgxPrepared.{
  Setting, PreparedValidator, Executor, GuardedDb, CacheOptions, Held, query_rewriter, DbCall,
  prepared_text, validated_value,
}
use postgres_sqlguard.PgxPrepared.LruCache.{Lru}
use postgres_sqlguard.PgxPrepared.Db.{built, new_guarded_db}
use postgres_sqlguard.PgxPrepared.Runs.{
  Request, ctx_of, sql_of, arguments_of, NoRewriter, Known, Validation, hit, unprepared,
  prepare_panic, miss, Executes, rewritten, rejected_before, delegated, RequestRuns, all_served,
  served,
}
use postgres_sqlguard.PgxPrepared.History.{serve_all}
use postgres_sqlguard.PgxPrepared.Follows.{serve_all-RequestRuns}

module _ {W : Type 0} (e : Engine W) (backend : Backend) where
  module _ (Tag Rows Row : Type 0) (zero_tag : Tag) where
    abbrev pub engine_setting : Setting
    engine_setting = record {
      World = State W Call;
      Ctx = Context W;
      Tag = Tag;
      Rows = Rows;
      Row = Row;
      zero_tag = zero_tag;
    }

    -- `*Engine` as a `PreparedValidator`.
    abbrev pub engine_validator : PreparedValidator engine_setting
    engine_validator = record {
      prepare = λ ctx sql. prepare backend e ctx sql;
      validate_prepared = λ ctx p. validate_prepared e ctx p;
    }

    module _ (L : Lru) (executor : Interface (Executor engine_setting)) (limit : ℤ) where
      abbrev pub engine_db : GuardedDb engine_setting
      engine_db = record {
        validator = holds pointer_kind false engine_validator;
        executor = executor;
        max_sql_bytes = limit;
      }

      -- The calls for a text between two states of the engine, which have allowed it: the last one
      -- is a call of `ValidatePrepared`, made at the start or right after a `Prepare` of the text that gave its
      -- value, which has returned nil and has asked every rule about
      -- every statement of what the text parses to.
      pub record Clears (ctx : Context W) (sql : GoString) (start : State W Call)
          (db_calls : List DbCall) (after : State W Call) : Type 0 where
        pub value : Prepared
        pub before : State W Call
        pub last : (earlier : List DbCall) × (db_calls ≡ earlier ++ validated_value value ∷ [])
        pub begins :
            (before ≡ start) ⊎ (prepare backend e ctx sql start ≡ (returned (value, none), before))
        pub validates : validate_prepared e ctx value before ≡ (returned none, after)
        pub result : Result
        pub parsing : parse backend sql ≡ parsed result
        pub calls : List Call
        pub trace : after.trace ≡ before.trace ++ calls
        pub run : PreparedRun e ctx (some result) before.world calls (returned none)
        pub all : evaluations calls ≡ all_pairs e ctx result

      -- Requests one after the other, as `RequestRuns`, with what the engine has done before each
      -- call of the executor.
      pub data CachedRuns
          : Known
            → Held (State W Call) L.Cache
            → List (Request engine_setting)
            → List DbCall
            → Held (State W Call) L.Cache
            → Type 0 where
        all_done :
            {known : Known} {held : Held (State W Call) L.Cache} → CachedRuns known held [] [] held
        replaced :
            {request : Request engine_setting} {requests : List (Request engine_setting)}
            {calls : List DbCall} {known : Known} {held held' : Held (State W Call) L.Cache} {n : ℕ}
            → In (query_rewriter n) (arguments_of request)
            → CachedRuns known held requests calls held'
            → CachedRuns known held (request ∷ requests) calls held'
        refused :
            {request : Request engine_setting} {requests : List (Request engine_setting)}
            {calls calls' : List DbCall} {known known' : Known}
            {held held' held'' : Held (State W Call) L.Cache} {o : Outcome (Option GoError)}
            → NoRewriter (arguments_of request)
            → Validation L engine_db
                (ctx_of request)
                (sql_of request)
                known
                held
                calls
                o
                known'
                held'
            → o ≢ returned none
            → CachedRuns known' held' requests calls' held''
            → CachedRuns known held (request ∷ requests) (calls ++ calls') held''
        handed :
            {request : Request engine_setting} {requests : List (Request engine_setting)}
            {calls calls' : List DbCall} {known known' : Known}
            {held held' held'' : Held (State W Call) L.Cache} {call : DbCall} {s : State W Call}
            → NoRewriter (arguments_of request)
            → Validation L engine_db
                (ctx_of request)
                (sql_of request)
                known
                held
                calls
                (returned none)
                known'
                held'
            → Clears (ctx_of request) (sql_of request) held.outer calls held'.outer
            → Executes L engine_db held'.outer request call s
            → CachedRuns known' (record { outer = s; cache = held'.cache }) requests calls' held''
            → CachedRuns known held (request ∷ requests) (calls ++ call ∷ calls') held''

      -- The values prepared so far stand for what their texts parse to.
      abbrev AllParsed : Known → Type 0
      AllParsed known =
          (sql : GoString) (p : Prepared)
          → In (sql, p) known
          → (r : Result) × (parse backend sql ≡ parsed r) × (p.result ≡ some r)

      module _ (ctx : Context W) (sql : GoString) where
        allowed-Clears :
            (p : Prepared) (start s t : State W Call) (db_calls : List DbCall)
            → (earlier : List DbCall) × (db_calls ≡ earlier ++ validated_value p ∷ [])
            → (s ≡ start) ⊎ (prepare backend e ctx sql start ≡ (returned (p, none), s))
            → (r : Result) × (parse backend sql ≡ parsed r) × (p.result ≡ some r)
            → validate_prepared e ctx p s ≡ (returned none, t)
            → Clears ctx sql start db_calls t
        allowed-Clears p start s t db_calls last begins (r, parsing, same) h =
            let (calls, trace, run) = validate_prepared-PreparedRun e ctx p s in
            let run' : PreparedRun e ctx (some r) s.world calls (returned none) =
              subst (λ o. PreparedRun e ctx (some r) s.world calls o) (ap (λ q. q.0) h)
                (subst (λ x. PreparedRun e ctx x s.world calls (validate_prepared e ctx p s).0) same
                  run) in
            record {
              value = p;
              before = s;
              last = last;
              begins = begins;
              validates = h;
              result = r;
              parsing = parsing;
              calls = calls;
              trace = sym (ap (λ q. q.1.trace) h) ∙ trace;
              run = run';
              all = PreparedRun-all e ctx backend sql r run' refl;
            }

        Validation-AllParsed :
            {known known' : Known} {held held' : Held (State W Call) L.Cache} {calls : List DbCall}
            {o : Outcome (Option GoError)}
            → AllParsed known
            → Validation L engine_db ctx sql known held calls o known' held'
            → AllParsed known'
        unfolding invoke
        Validation-AllParsed all (hit got known_ val) text q at = all text q at
        Validation-AllParsed all (unprepared got prep) text q at = all text q at
        Validation-AllParsed all (prepare_panic got prep) text q at = all text q at
        Validation-AllParsed {held = held} all (miss {p = p} got prep val kept) text q (here same) =
            let parsing = prepare-parsed e ctx backend sql p held.outer (ap (λ r. r.0) prep) in
            let t : text ≡ sql = ap (λ r. r.0) same in
            let v : q ≡ p = ap (λ r. r.1) same in rw (t, v) parsing
        Validation-AllParsed all (miss got prep val kept) text q (there at) = all text q at

        Validation-Clears :
            {known known' : Known} {held held' : Held (State W Call) L.Cache} {calls : List DbCall}
            {o : Outcome (Option GoError)}
            → AllParsed known
            → Validation L engine_db ctx sql known held calls o known' held'
            → o ≡ returned none
            → Clears ctx sql held.outer calls held'.outer
        unfolding invoke
        Validation-Clears all (hit {p = p} got known_ val) e =
            allowed-Clears p _ _ _ _ ([], refl) (inl refl) (all sql p known_) (rw e at val)
        Validation-Clears all (unprepared got prep) e = absurd (cc)
        Validation-Clears all (prepare_panic got prep) e = absurd (cc)
        Validation-Clears {held = held} all (miss {p = p} got prep val kept) h =
            allowed-Clears p _ _ _ _ (prepared_text sql ∷ [], refl) (inr prep)
              (prepare-parsed e ctx backend sql p held.outer (ap (λ r. r.0) prep)) (rw h at val)

      runs-CachedRuns :
          {known : Known} {held held' : Held (State W Call) L.Cache}
          {requests : List (Request engine_setting)} {calls : List DbCall}
          → AllParsed known
          → RequestRuns L engine_db known held requests calls held'
          → CachedRuns known held requests calls held'
      runs-CachedRuns all all_served = all_done
      runs-CachedRuns all (served (rewritten at) runs) = replaced at (runs-CachedRuns all runs)
      runs-CachedRuns all (served {request = request} (rejected_before clean run not_nil) runs) =
          refused clean run not_nil
            (runs-CachedRuns (Validation-AllParsed (ctx_of request) (sql_of request) all run) runs)
      runs-CachedRuns {known = known} {held = held} {held' = held'} all
            (served {request = request} {requests = requests} {calls' = calls'}
              (delegated {calls = calls} {call = call} clean run executes)
              runs) =
          subst (λ l. CachedRuns known held (request ∷ requests) l held')
            (sym (append_assoc calls (call ∷ []) calls'))
            (handed clean run (Validation-Clears (ctx_of request) (sql_of request) all run refl)
              executes
              (runs-CachedRuns (Validation-AllParsed (ctx_of request) (sql_of request) all run)
                runs))

      -- Any requests to a new wrapper of an engine, one after the other, from any state of the
      -- engine's world, follow the runs of those requests from that state, call by call. A request
      -- with a query rewriter among its arguments makes no call. Any other is validated, whether its
      -- text is in the cache or not, and the executor is called for it only if this very validation
      -- ended with a call of the engine's `ValidatePrepared`, under the request's own context, that returned nil, right before the
      -- executor's call and in the state that it starts from: the text parses, and in that call of `ValidatePrepared`
      -- every registered rule was asked about every statement of what the text parses to and allowed
      -- it. The cache, and what rules, contexts and the executor do, change nothing of this.
      pub serve_all-CachedRuns :
          (options : CacheOptions) (cache : L.Cache)
          → new_guarded_db L engine_setting
              (holds pointer_kind false engine_validator)
              executor
              options
            ≡ built engine_db cache
          → (s : State W Call) (requests : List (Request engine_setting))
          → (calls : List DbCall) × ((serve_all L engine_db
                (record { world = record { outer = s; cache = cache }; trace = [] })
                requests).trace
              ≡ calls)
            × CachedRuns []
                (record { outer = s; cache = cache })
                requests
                calls
                (serve_all L engine_db
                  (record { world = record { outer = s; cache = cache }; trace = [] })
                  requests).world
      serve_all-CachedRuns options cache h s requests =
          let (calls, trace, runs) =
            serve_all-RequestRuns L engine_db (holds pointer_kind false engine_validator) executor
              options cache h s requests in
          (calls, trace, runs-CachedRuns (λ sql p at. elim at [ ]) runs)
