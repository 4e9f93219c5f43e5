-- ===== src/PgxPrepared/Follows.antt =====
-- The methods of `GuardedDB` in example/pgx-prepared/guarded.go against what a request is to do.
use postgres_sqlguard.Common.{
  ◌≡◌, refl, sym, ap, ◌∙◌, Bool-cases, inl, inr, List, [], ◌∷◌, ◌++◌, append_assoc, append-nil,
  Option, none, some, GoString,
}
use postgres_sqlguard.Errors.{GoError}
use postgres_sqlguard.Runtime.{Outcome, returned, panicked, continue, perform, pure}
use postgres_sqlguard.Interface.{Interface}
use postgres_sqlguard.PgxPrepared.{
  Setting, PreparedValidator, Executor, CacheOptions, GuardedDb, Argument, DbCall, executor_row,
  contains_query_rewriter,
}
use postgres_sqlguard.PgxPrepared.LruCache.{Lru}
use postgres_sqlguard.PgxPrepared.Db.{
  built, new_guarded_db, exec, exec_after, query, query_after, query_row, query_row_after,
}
use postgres_sqlguard.PgxPrepared.Runs.{
  Request, exec_request, query_request, query_row_request, ctx_of, sql_of, arguments_of, NoRewriter,
  Known, Executes, by_exec, by_query, by_query_row, RequestRun, rewritten, rejected_before,
  delegated, RequestRuns, all_served, served,
}
use postgres_sqlguard.PgxPrepared.History.{serve, serve_all, new_cache}
use postgres_sqlguard.PgxPrepared.Decisions.{rewriter_found, contains-NoRewriter}
use postgres_sqlguard.PgxPrepared.Looks.{Shared, Covers, Looks, validate_cached-Looks}

module _ (L : Lru) {T : Setting} (db : GuardedDb T) where
  open T use {World, Ctx}

  abbrev Serves : Known → Shared L db → Request T → Shared L db → Type 0
  Serves known s request t =
      (calls : List DbCall) × (known' : Known) × (t.trace ≡ s.trace ++ calls)
      × RequestRun L db known s.world request calls known' t.world
      × Covers L db t.world.cache known'

  module _ (known : Known) (s : Shared L db) (request : Request T)
      (clean : NoRewriter (arguments_of request)) where
    -- A method after its validation.
    handed_on :
        {A : Type 0} (f : Option GoError → Shared L db → Outcome A × Shared L db)
        → ((err : GoError) (t : Shared L db) → (f (some err) t).1 ≡ t)
        → ((t : Shared L db)
            → (call : DbCall) × (w : World) × Executes L db t.world.outer request call w
              × ((f none t).1 ≡ record {
                world = record { outer = w; cache = t.world.cache };
                trace = t.trace ++ call ∷ [];
              }))
        → (r : Outcome (Option GoError) × Shared L db)
        → Looks L db (ctx_of request) (sql_of request) known s r
        → Serves known s request (continue r f).1
    handed_on f refuses delegates (panicked, t) (calls, known', trace, run, covers) =
        (calls, known', trace, rejected_before clean run (λ e. cc), covers)
    handed_on f refuses delegates (returned (some err), t) (calls, known', trace, run, covers) =
        rw (refuses err t) (calls, known', trace, rejected_before clean run (λ e. cc), covers)
    handed_on f refuses delegates (returned none, t) (calls, known', trace, run, covers) =
        let (call, w, executes, same) = delegates t in
        rw same (
          calls ++ call ∷ [],
          known',
          ap (λ l. l ++ call ∷ []) trace ∙ append_assoc s.trace calls (call ∷ []),
          delegated clean run executes,
          covers,
        )

  -- What the methods do after a validation that returned nil.
  module _ (ctx : Ctx) (sql : GoString) (arguments : List Argument) where
    row_trace :
        (r : Outcome T.Row × Shared L db) → (continue r (λ row. pure (executor_row row))).1 ≡ r.1
    row_trace (returned row, t) = refl
    row_trace (panicked, t) = refl

  serve-Serves :
      (known : Known) (s : Shared L db) (request : Request T)
      → Covers L db s.world.cache known
      → Serves known s request (serve L db s request)
  unfolding exec query query_row exec_after query_after query_row_after perform
  serve-Serves known s (exec_request ctx sql arguments) covers =
      elim (Bool-cases (contains_query_rewriter arguments)) [
        | inl rewrites ↦
            rw (rewrites, serve)
              (
                [],
                known,
                sym (append-nil s.trace),
                rewritten (rewriter_found arguments rewrites).1,
                covers,
              )
        | inr clean ↦
            rw (clean, serve)
              (handed_on known s (exec_request ctx sql arguments)
                (contains-NoRewriter arguments clean) (exec_after L T db ctx sql arguments)
                (λ err t. refl) (λ t. (_, _, by_exec, refl)) _
                (validate_cached-Looks L db ctx sql known s covers))
      ]
  serve-Serves known s (query_request ctx sql args) covers =
      elim (Bool-cases (contains_query_rewriter args)) [
        | inl rewrites ↦
            rw (rewrites, serve)
              (
                [],
                known,
                sym (append-nil s.trace),
                rewritten (rewriter_found args rewrites).1,
                covers,
              )
        | inr clean ↦
            rw (clean, serve)
              (handed_on known s (query_request ctx sql args) (contains-NoRewriter args clean)
                (query_after L T db ctx sql args) (λ err t. refl) (λ t. (_, _, by_query, refl)) _
                (validate_cached-Looks L db ctx sql known s covers))
      ]
  serve-Serves known s (query_row_request ctx sql args) covers =
      elim (Bool-cases (contains_query_rewriter args)) [
        | inl rewrites ↦
            rw (rewrites, serve)
              (
                [],
                known,
                sym (append-nil s.trace),
                rewritten (rewriter_found args rewrites).1,
                covers,
              )
        | inr clean ↦
            rw (clean, serve)
              (handed_on known s (query_row_request ctx sql args) (contains-NoRewriter args clean)
                (query_row_after L T db ctx sql args) (λ err t. refl)
                (λ t. (_, _, by_query_row, row_trace ctx sql args _)) _
                (validate_cached-Looks L db ctx sql known s covers))
      ]

  abbrev pub ServesAll : Known → Shared L db → List (Request T) → Shared L db → Type 0
  ServesAll known s requests t =
      (calls : List DbCall) × (t.trace ≡ s.trace ++ calls)
      × RequestRuns L db known s.world requests calls t.world

  serve_all-follows :
      (known : Known) (s : Shared L db) (requests : List (Request T))
      → Covers L db s.world.cache known
      → ServesAll known s requests (serve_all L db s requests)
  serve_all-follows known s [] covers = ([], sym (append-nil s.trace), all_served)
  serve_all-follows known s (request ∷ requests) covers =
      let (calls, known', trace, run, covers') = serve-Serves known s request covers in
      let (calls', trace', runs) =
        serve_all-follows known' (serve L db s request) requests covers' in
      (
        calls ++ calls',
        trace' ∙ ap (λ l. l ++ calls') trace ∙ append_assoc s.trace calls calls',
        served run runs,
      )

  -- Any requests, one after the other, to a wrapper that `NewGuardedDB` has returned, from any
  -- world and whatever the calls return or do to it, follow the runs of those requests, call by call
  -- and each from the world and the cache that the one before has left. A request with a query rewriter
  -- among its arguments makes no call. Any other is validated now, under its own context: a text found
  -- in the cache by validating a value that one of these requests has prepared for the same text, a text not found by
  -- preparing it and, if that succeeds, validating the value; this call of the validator is made on
  -- every request. Only if it returns nil is the executor called, right after it, once, with the
  -- request's own text and arguments. A value is added to the cache only if its text is no longer than the
  -- limit and its validation returned nil or a violation, and then always.
  pub serve_all-RequestRuns :
      (validator : Interface (PreparedValidator T)) (executor : Interface (Executor T))
      (options : CacheOptions) (cache : L.Cache)
      → new_guarded_db L T validator executor options ≡ built db cache
      → (w : World) (requests : List (Request T))
      → ServesAll []
          (record { world = record { outer = w; cache = cache }; trace = [] })
          requests
          (serve_all L db
            (record { world = record { outer = w; cache = cache }; trace = [] })
            requests)
  serve_all-RequestRuns validator executor options cache h w requests =
      serve_all-follows [] _ requests (λ sql p hit. absurd (
        cc (
          L.new-empty options.capacity cache sql
              (new_cache L db validator executor options cache h),
          hit,
        )))
