-- ===== src/PgxPrepared/Guards.antt =====
-- What the cache of example/pgx-prepared/guarded.go holds, over all runs.
use postgres_sqlguard.Common.{
  ◌≡◌, ap, ◌∙◌, subst, inl, inr, true, List, [], Option, none, some, GoString,
}
use postgres_sqlguard.Errors.{GoError}
use postgres_sqlguard.Runtime.{Outcome, returned}
use postgres_sqlguard.Interface.{Interface, invoke}
use postgres_sqlguard.Contracts.{Prepared}
use postgres_sqlguard.PgxPrepared.{
  Setting, PreparedValidator, Executor, CacheOptions, GuardedDb, Held, DbCall, fits,
}
use postgres_sqlguard.PgxPrepared.LruCache.{Lru}
use postgres_sqlguard.PgxPrepared.Db.{built, new_guarded_db}
use postgres_sqlguard.PgxPrepared.Runs.{
  Request, ctx_of, sql_of, Known, Kept, added, left, left_panic, Validation, hit, unprepared,
  prepare_panic, miss, RequestRun, rewritten, rejected_before, delegated, RequestRuns, all_served,
  served,
}
use postgres_sqlguard.PgxPrepared.History.{serve_all, new_cache}
use postgres_sqlguard.PgxPrepared.Follows.{serve_all-RequestRuns}
use postgres_sqlguard.PgxPrepared.Decisions.{SmallEnough-fits}

module _ {T : Setting} (db : GuardedDb T) where
  open T use {World, Ctx}

  -- At some time the validator returned `p` for the text, with no error.
  pub record PreparedFor (sql : GoString) (p : Prepared) : Type 0 where
    pub ctx : Ctx
    pub before : World
    pub after : World
    pub prepares : invoke db.validator (λ v. v.prepare ctx sql) before ≡ (returned (p, none), after)

  module _ (L : Lru) where
    -- What may be found in the cache: values prepared for the text itself, where the text is short enough.
    abbrev pub Coherent : L.Cache → Type 0
    Coherent cache =
        (sql : GoString) (p : Prepared)
        → (L.get cache sql).0 ≡ some p
        → PreparedFor sql p × (fits sql db.max_sql_bytes ≡ true)

    module _ (ctx : Ctx) (sql : GoString) where
      looked-Coherent :
          (cache cache' : L.Cache) (found : Option Prepared)
          → L.get cache sql ≡ (found, cache')
          → Coherent cache
          → Coherent cache'
      looked-Coherent cache cache' found got coherent k p h =
          coherent k p (L.get-get cache sql k p (ap (λ c. (L.get c k).0) (ap (λ r. r.1) got) ∙ h))

      Kept-Coherent :
          {p : Prepared} {cache cache' : L.Cache} {o : Outcome (Option GoError)}
          → Kept L db sql p cache o cache'
          → PreparedFor sql p
          → Coherent cache
          → Coherent cache'
      Kept-Coherent {p = p} {cache = cache} (added small decision) origin coherent k q h =
          elim (L.get-add cache sql k p q h) [
            | inl (same, e) ↦ (
              subst (λ k. PreparedFor k q) same (subst (PreparedFor sql) e origin),
              subst (λ k. fits k db.max_sql_bytes ≡ true) same
                  (SmallEnough-fits sql db.max_sql_bytes small),
            )
            | inr old ↦ coherent k q old
          ]
      Kept-Coherent (left dropped) origin coherent k q h = coherent k q h
      Kept-Coherent left_panic origin coherent k q h = coherent k q h

      Validation-Coherent :
          {known known' : Known} {held held' : Held World L.Cache} {calls : List DbCall}
          {o : Outcome (Option GoError)}
          → Validation L db ctx sql known held calls o known' held'
          → Coherent held.cache
          → Coherent held'.cache
      Validation-Coherent {held = held} (hit got known_ val) coherent =
          looked-Coherent held.cache _ _ got coherent
      Validation-Coherent {held = held} (unprepared got prep) coherent =
          looked-Coherent held.cache _ _ got coherent
      Validation-Coherent {held = held} (prepare_panic got prep) coherent =
          looked-Coherent held.cache _ _ got coherent
      Validation-Coherent {held = held} (miss {w = w} got prep val kept) coherent =
          Kept-Coherent kept (record { ctx = ctx; before = held.outer; after = w; prepares = prep })
            (looked-Coherent held.cache _ _ got coherent)

    RequestRun-Coherent :
        {known known' : Known} {held held' : Held World L.Cache} {request : Request T}
        {calls : List DbCall}
        → RequestRun L db known held request calls known' held'
        → Coherent held.cache
        → Coherent held'.cache
    RequestRun-Coherent (rewritten at) coherent = coherent
    RequestRun-Coherent {request = request} (rejected_before clean run not_nil) coherent =
        Validation-Coherent (ctx_of request) (sql_of request) run coherent
    RequestRun-Coherent {request = request} (delegated clean run executes) coherent =
        Validation-Coherent (ctx_of request) (sql_of request) run coherent

    RequestRuns-Coherent :
        {known : Known} {held held' : Held World L.Cache} {requests : List (Request T)}
        {calls : List DbCall}
        → RequestRuns L db known held requests calls held'
        → Coherent held.cache
        → Coherent held'.cache
    RequestRuns-Coherent all_served coherent = coherent
    RequestRuns-Coherent (served run runs) coherent =
        RequestRuns-Coherent runs (RequestRun-Coherent run coherent)

    -- After any requests to a new wrapper, what its cache holds was prepared for the text.
    pub serve_all-Coherent :
        (validator : Interface (PreparedValidator T)) (executor : Interface (Executor T))
        (options : CacheOptions) (cache : L.Cache)
        → new_guarded_db L T validator executor options ≡ built db cache
        → (w : World) (requests : List (Request T))
        → Coherent
            (serve_all L db
              (record { world = record { outer = w; cache = cache }; trace = [] })
              requests).world.cache
    serve_all-Coherent validator executor options cache h w requests =
        let (calls, trace, runs) =
          serve_all-RequestRuns L db validator executor options cache h w requests in
        RequestRuns-Coherent runs (λ sql p found. absurd (
          cc (
            L.new-empty options.capacity cache sql
                (new_cache L db validator executor options cache h),
            found,
          )))
