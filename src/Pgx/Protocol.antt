-- ===== src/Pgx/Protocol.antt =====
-- The calls that a wrapper of example/pgx/guarded.go makes of its collaborators, over any requests.
use postgres_sqlguard.Common.{
  ◌≡◌, ◌≢◌, refl, sym, ap, ◌∙◌, true, false, Bool-cases, inl, inr, List, [], ◌∷◌, ◌++◌,
  append_assoc, append-nil, Option, none, some, GoString, ℕ, In, here, there,
}
use postgres_sqlguard.Errors.{GoError}
use postgres_sqlguard.Runtime.{
  Outcome, returned, panicked, State, Go, pure, ◌>>=◌, perform, continue, Action,
}
use postgres_sqlguard.Interface.{invoke}
use postgres_sqlguard.PgxPrepared.{
  Setting, Argument, query_rewriter, plain, executor_row, failed_row,
}
use postgres_sqlguard.PgxPrepared.Runs.{
  Request, exec_request, query_request, query_row_request, ctx_of, sql_of, arguments_of, NoRewriter,
}
use postgres_sqlguard.Pgx.{
  GuardedDb, DbCall, validated_text, executed, queried, queried_row, contains_query_rewriter, guard,
  exec, query, query_row,
}

rewriter_found :
    (arguments : List Argument)
    → contains_query_rewriter arguments ≡ true
    → (n : ℕ) × In (query_rewriter n) arguments
unfolding contains_query_rewriter
rewriter_found [] h = absurd (cc)
rewriter_found (query_rewriter n ∷ arguments) h = (n, here refl)
rewriter_found (plain n ∷ arguments) h = let (m, at) = rewriter_found arguments h in (m, there at)

contains-NoRewriter :
    (arguments : List Argument) → contains_query_rewriter arguments ≡ false → NoRewriter arguments
unfolding contains_query_rewriter
contains-NoRewriter [] h n at = elim at [ ]
contains-NoRewriter (query_rewriter m ∷ arguments) h n at = cc
contains-NoRewriter (plain m ∷ arguments) h n (here e) = cc
contains-NoRewriter (plain m ∷ arguments) h n (there at) = contains-NoRewriter arguments h n at

module _ {T : Setting} (db : GuardedDb T) where
  open T use {World, Ctx}

  -- The executor's call for a request.
  pub data Executes (w : World) : Request T → DbCall → World → Type 0 where
    by_exec :
        {ctx : Ctx} {sql : GoString} {arguments : List Argument}
        → Executes w
            (exec_request ctx sql arguments)
            (executed sql arguments)
            (invoke db.executor (λ x. x.exec ctx sql arguments) w).1
    by_query :
        {ctx : Ctx} {sql : GoString} {args : List Argument}
        → Executes w
            (query_request ctx sql args)
            (queried sql args)
            (invoke db.executor (λ x. x.query ctx sql args) w).1
    by_query_row :
        {ctx : Ctx} {sql : GoString} {args : List Argument}
        → Executes w
            (query_row_request ctx sql args)
            (queried_row sql args)
            (invoke db.executor (λ x. x.query_row ctx sql args) w).1

  abbrev pub validates : Request T → Action World (Option GoError)
  validates request = invoke db.validator (λ v. v.validate (ctx_of request) (sql_of request))

  -- A request: refused with a query rewriter, before any call; else validated, and handed to the
  -- executor only after a validation that returned nil.
  pub data RequestRun (w : World) (request : Request T) : List DbCall → World → Type 0 where
    rewritten : {n : ℕ} → In (query_rewriter n) (arguments_of request) → RequestRun w request [] w
    rejected_before :
        {o : Outcome (Option GoError)} {w' : World}
        → NoRewriter (arguments_of request)
        → validates request w ≡ (o, w')
        → o ≢ returned none
        → RequestRun w request (validated_text (sql_of request) ∷ []) w'
    delegated :
        {call : DbCall} {w' w'' : World}
        → NoRewriter (arguments_of request)
        → validates request w ≡ (returned none, w')
        → Executes w' request call w''
        → RequestRun w request (validated_text (sql_of request) ∷ call ∷ []) w''

  -- Requests one after the other.
  pub data RequestRuns : World → List (Request T) → List DbCall → World → Type 0 where
    all_served : {w : World} → RequestRuns w [] [] w
    served :
        {request : Request T} {requests : List (Request T)} {calls calls' : List DbCall}
        {w w' w'' : World}
        → RequestRun w request calls w'
        → RequestRuns w' requests calls' w''
        → RequestRuns w (request ∷ requests) (calls ++ calls') w''

  -- The state after a request, whatever it returns.
  abbrev pub serve : State World DbCall → Request T → State World DbCall
  serve s (exec_request ctx sql arguments) = (exec T db ctx sql arguments s).1
  serve s (query_request ctx sql args) = (query T db ctx sql args s).1
  serve s (query_row_request ctx sql args) = (query_row T db ctx sql args s).1

  abbrev pub serve_all : State World DbCall → List (Request T) → State World DbCall
  serve_all s [] = s
  serve_all s (request ∷ requests) = serve_all (serve s request) requests

  abbrev Serves : State World DbCall → Request T → State World DbCall → Type 0
  Serves s request t =
      (calls : List DbCall) × (t.trace ≡ s.trace ++ calls)
      × RequestRun s.world request calls t.world

  module _ (request : Request T) {A : Type 0} (refusal : GoError → A) (delegate : Go World DbCall A)
      (s : State World DbCall)
      (delegates : (t : State World DbCall)
        → (call : DbCall) × (w : World) × Executes t.world request call w
          × ((delegate t).1 ≡ record { world = w; trace = t.trace ++ call ∷ [] })) where
    -- What follows the call of the validator.
    decided :
        (q : Outcome (Option GoError) × World)
        → validates request s.world ≡ q
        → NoRewriter (arguments_of request)
        → Serves s request
            (continue
              (q.0, record { world = q.1; trace = s.trace ++ validated_text (sql_of request) ∷ [] })
              (λ err. elim err [ some x ↦ pure (refusal x) | none ↦ delegate ])).1
    decided (panicked, w) h clean = (_, refl, rejected_before clean h (λ e. cc))
    decided (returned (some err), w) h clean = (_, refl, rejected_before clean h (λ e. cc))
    decided (returned none, w) h clean =
        let t : State World DbCall = record {
          world = w;
          trace = s.trace ++ validated_text (sql_of request) ∷ [];
        } in
        let (call, w', executes, same) = delegates t in
        rw same (
          validated_text (sql_of request) ∷ call ∷ [],
          append_assoc s.trace _ _,
          delegated clean h executes,
        )

    guard-Serves :
        Serves s request
          (guard T db (ctx_of request) (sql_of request) (arguments_of request) refusal delegate s).1
    unfolding guard perform
    guard-Serves = elim (Bool-cases (contains_query_rewriter (arguments_of request))) [
      | inl rewrites ↦ rw rewrites (
        [],
        sym (append-nil s.trace),
        rewritten (rewriter_found (arguments_of request) rewrites).1,
      )
      | inr clean ↦ rw clean (decided _ refl (contains-NoRewriter (arguments_of request) clean))
    ]

  rowed :
      (r : Outcome T.Row × State World DbCall)
      → (continue r (λ row. pure (executor_row row))).1 ≡ r.1
  rowed (returned row, s) = refl
  rowed (panicked, s) = refl

  serve-Serves : (s : State World DbCall) (request : Request T) → Serves s request (serve s request)
  unfolding exec query query_row perform
  serve-Serves s (exec_request ctx sql arguments) =
      guard-Serves (exec_request ctx sql arguments) (λ err. (T.zero_tag, some err))
        (perform (executed sql arguments) (invoke db.executor (λ x. x.exec ctx sql arguments))) s
        (λ t. (_, _, by_exec, refl))
  serve-Serves s (query_request ctx sql args) =
      guard-Serves (query_request ctx sql args) (λ err. (none, some err))
        (perform (queried sql args) (invoke db.executor (λ x. x.query ctx sql args))) s
        (λ t. (_, _, by_query, refl))
  serve-Serves s (query_row_request ctx sql args) =
      guard-Serves (query_row_request ctx sql args) failed_row
        (perform (queried_row sql args) (invoke db.executor (λ x. x.query_row ctx sql args))
          >>= λ row. pure (executor_row row))
        s (λ t. (_, _, by_query_row, rowed _))

  -- Any requests to a wrapper, one after the other, from any world and whatever they return, follow
  -- the runs of those requests, call by call and each from the world that the one before has left. A
  -- request with a query rewriter among its arguments makes no call. Any other is validated, under
  -- its own context, and only if this validation returns nil is the executor called, right after
  -- it, once, with the request's own text and arguments.
  pub serve_all-RequestRuns :
      (s : State World DbCall) (requests : List (Request T))
      → (calls : List DbCall) × ((serve_all s requests).trace ≡ s.trace ++ calls)
        × RequestRuns s.world requests calls (serve_all s requests).world
  serve_all-RequestRuns s [] = ([], sym (append-nil s.trace), all_served)
  serve_all-RequestRuns s (request ∷ requests) =
      let (calls, trace, run) = serve-Serves s request in
      let (calls', trace', runs) = serve_all-RequestRuns (serve s request) requests in
      (
        calls ++ calls',
        trace' ∙ ap (λ l. l ++ calls') trace ∙ append_assoc s.trace calls calls',
        served run runs,
      )
