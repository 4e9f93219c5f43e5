-- ===== src/PgxPrepared/Runs.antt =====
-- What a request to a wrapper of example/pgx-prepared/guarded.go is to do, call by call and from the
-- world that it finds.
use postgres_sqlguard.Common.{
  ℕ, ◌≤◌, ◌≡◌, ◌≢◌, ◌⊎◌, List, [], ◌∷◌, ◌++◌, Option, none, some, GoString, ℤ, pos, length, In,
}
use postgres_sqlguard.Errors.{GoError, Violation, as_violation}
use postgres_sqlguard.Runtime.{Outcome, returned, panicked, Action}
use postgres_sqlguard.Interface.{invoke}
use postgres_sqlguard.Contracts.{Prepared}
use postgres_sqlguard.PgxPrepared.{
  Setting, GuardedDb, Held, Argument, query_rewriter, DbCall, prepared_text, validated_value,
  executed, queried, queried_row,
}
use postgres_sqlguard.PgxPrepared.LruCache.{Lru}

module _ (T : Setting) where
  -- A call of the wrapper.
  pub data Request : Type 0 where
    exec_request query_request query_row_request : T.Ctx → GoString → List Argument → Request

module _ {T : Setting} where
  abbrev pub ctx_of : Request T → T.Ctx
  ctx_of (exec_request ctx sql arguments) = ctx
  ctx_of (query_request ctx sql args) = ctx
  ctx_of (query_row_request ctx sql args) = ctx

  abbrev pub sql_of : Request T → GoString
  sql_of (exec_request ctx sql arguments) = sql
  sql_of (query_request ctx sql args) = sql
  sql_of (query_row_request ctx sql args) = sql

  abbrev pub arguments_of : Request T → List Argument
  arguments_of (exec_request ctx sql arguments) = arguments
  arguments_of (query_request ctx sql args) = args
  arguments_of (query_row_request ctx sql args) = args

-- No argument may replace the text.
abbrev pub NoRewriter : List Argument → Type 0
NoRewriter arguments = (n : ℕ) → ¬ In (query_rewriter n) arguments

-- A text short enough, and a result of a validation that may be kept: none, or a violation.
abbrev pub SmallEnough : GoString → ℤ → Type 0
SmallEnough sql limit = (n : ℕ) × (limit ≡ pos n) × (length sql ≤ n)

abbrev pub IsDecision : Option GoError → Type 0
IsDecision err =
    (err ≡ none)
    ⊎ ((x : GoError) × (v : Option Violation) × (err ≡ some x) × (as_violation x ≡ some v))

-- The texts prepared so far, with their values.
abbrev pub Known : Type 0
Known = List (GoString × Prepared)

module _ (L : Lru) {T : Setting} (db : GuardedDb T) where
  open T use {World, Ctx}

  abbrev pub prepares : Ctx → GoString → Action World (Prepared × Option GoError)
  prepares ctx sql = invoke db.validator (λ v. v.prepare ctx sql)

  abbrev pub validates : Ctx → Prepared → Action World (Option GoError)
  validates ctx p = invoke db.validator (λ v. v.validate_prepared ctx p)

  -- The cache after a validation on a miss.
  pub data Kept (sql : GoString) (p : Prepared) (cache : L.Cache)
      : Outcome (Option GoError) → L.Cache → Type 0 where
    added :
        {err : Option GoError}
        → SmallEnough sql db.max_sql_bytes
        → IsDecision err
        → Kept sql p cache (returned err) (L.add cache sql p)
    left :
        {err : Option GoError}
        → (¬ (SmallEnough sql db.max_sql_bytes × IsDecision err))
        → Kept sql p cache (returned err) cache
    left_panic : Kept sql p cache panicked cache

  -- The validation of a request from a world, a cache and the texts prepared so far.
  pub data Validation (ctx : Ctx) (sql : GoString) (known : Known) (held : Held World L.Cache)
      : List DbCall → Outcome (Option GoError) → Known → Held World L.Cache → Type 0 where
    -- A hit: a value prepared before for this text is validated now.
    hit :
        {p : Prepared} {cache : L.Cache} {o : Outcome (Option GoError)} {w : World}
        → L.get held.cache sql ≡ (some p, cache)
        → In (sql, p) known
        → validates ctx p held.outer ≡ (o, w)
        → Validation ctx sql known held
            (validated_value p ∷ [])
            o
            known
            (record { outer = w; cache = cache })
    -- A miss: the text is prepared now, and if that succeeds the value is validated.
    unprepared :
        {p : Prepared} {cache : L.Cache} {err : GoError} {w : World}
        → L.get held.cache sql ≡ (none, cache)
        → prepares ctx sql held.outer ≡ (returned (p, some err), w)
        → Validation ctx sql known held
            (prepared_text sql ∷ [])
            (returned (some err))
            known
            (record { outer = w; cache = cache })
    prepare_panic :
        {cache : L.Cache} {w : World}
        → L.get held.cache sql ≡ (none, cache)
        → prepares ctx sql held.outer ≡ (panicked, w)
        → Validation ctx sql known held
            (prepared_text sql ∷ [])
            panicked
            known
            (record { outer = w; cache = cache })
    miss :
        {p : Prepared} {cache cache' : L.Cache} {o : Outcome (Option GoError)} {w w' : World}
        → L.get held.cache sql ≡ (none, cache)
        → prepares ctx sql held.outer ≡ (returned (p, none), w)
        → validates ctx p w ≡ (o, w')
        → Kept sql p cache o cache'
        → Validation ctx sql known held
            (prepared_text sql ∷ validated_value p ∷ [])
            o
            ((sql, p) ∷ known)
            (record { outer = w'; cache = cache' })

  -- The executor's call for a request.
  pub data Executes (w : World) : Request T → DbCall → World → Type 0 where
    by_exec :
        {ctx : Ctx} {sql : GoString} {arguments : List Argument}
        → Executes w
            (exec_request ctx sql arguments)
            (executed sql arguments)
            (invoke db.executor (λ x. x.exec ctx sql arguments) w).1
    by_query :
        {ctx : Ctx} {sql : GoString} {args : List Argument}
        → Executes w
            (query_request ctx sql args)
            (queried sql args)
            (invoke db.executor (λ x. x.query ctx sql args) w).1
    by_query_row :
        {ctx : Ctx} {sql : GoString} {args : List Argument}
        → Executes w
            (query_row_request ctx sql args)
            (queried_row sql args)
            (invoke db.executor (λ x. x.query_row ctx sql args) w).1

  -- A request: refused with a query rewriter, before any call; else validated, and handed to the
  -- executor only after a validation that returned nil.
  pub data RequestRun (known : Known) (held : Held World L.Cache) (request : Request T)
      : List DbCall → Known → Held World L.Cache → Type 0 where
    rewritten :
        {n : ℕ}
        → In (query_rewriter n) (arguments_of request)
        → RequestRun known held request [] known held
    rejected_before :
        {calls : List DbCall} {o : Outcome (Option GoError)} {known' : Known}
        {held' : Held World L.Cache}
        → NoRewriter (arguments_of request)
        → Validation (ctx_of request) (sql_of request) known held calls o known' held'
        → o ≢ returned none
        → RequestRun known held request calls known' held'
    delegated :
        {calls : List DbCall} {known' : Known} {held' : Held World L.Cache} {call : DbCall}
        {w : World}
        → NoRewriter (arguments_of request)
        → Validation (ctx_of request) (sql_of request) known held calls (returned none) known' held'
        → Executes held'.outer request call w
        → RequestRun known held request
            (calls ++ call ∷ [])
            known'
            (record { outer = w; cache = held'.cache })

  -- Requests one after the other.
  pub data RequestRuns
      : Known
        → Held World L.Cache
        → List (Request T)
        → List DbCall
        → Held World L.Cache
        → Type 0 where
    all_served : {known : Known} {held : Held World L.Cache} → RequestRuns known held [] [] held
    served :
        {request : Request T} {requests : List (Request T)} {calls calls' : List DbCall}
        {known known' : Known} {held held' held'' : Held World L.Cache}
        → RequestRun known held request calls known' held'
        → RequestRuns known' held' requests calls' held''
        → RequestRuns known held (request ∷ requests) (calls ++ calls') held''
