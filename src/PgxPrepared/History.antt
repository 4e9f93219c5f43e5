-- ===== src/PgxPrepared/History.antt =====
-- Any number of requests to a wrapper of example/pgx-prepared/guarded.go.
use postgres_sqlguard.Common.{arith, ◌≡◌, List, [], ◌∷◌, Option, none, some, Bool-cases, inl, inr}
use postgres_sqlguard.Runtime.{State}
use postgres_sqlguard.Interface.{Interface}
use postgres_sqlguard.PgxPrepared.{
  is_nil, Setting, PreparedValidator, Executor, GuardedDb, CacheOptions, Held, DbCall, is_positive,
}
use postgres_sqlguard.PgxPrepared.LruCache.{Lru}
use postgres_sqlguard.PgxPrepared.Runs.{Request, exec_request, query_request, query_row_request}
use postgres_sqlguard.PgxPrepared.Db.{built, with_cache, new_guarded_db, exec, query, query_row}

module _ (L : Lru) {T : Setting} (db : GuardedDb T) where
  open T use {World}

  -- The state after a request, whatever it returns.
  abbrev pub serve :
      State (Held World L.Cache) DbCall → Request T → State (Held World L.Cache) DbCall
  serve s (exec_request ctx sql arguments) = (exec L T db ctx sql arguments s).1
  serve s (query_request ctx sql args) = (query L T db ctx sql args s).1
  serve s (query_row_request ctx sql args) = (query_row L T db ctx sql args s).1

  abbrev pub serve_all :
      State (Held World L.Cache) DbCall → List (Request T) → State (Held World L.Cache) DbCall
  serve_all s [] = s
  serve_all s (request ∷ requests) = serve_all (serve s request) requests

  module _ (validator : Interface (PreparedValidator T)) (executor : Interface (Executor T))
      (options : CacheOptions) (cache : L.Cache) where
    with_cache-some :
        (d : GuardedDb T) (c : Option L.Cache)
        → with_cache L T d c ≡ built db cache
        → c ≡ some cache
    unfolding with_cache
    with_cache-some d none h = absurd (cc)
    with_cache-some d (some c) h = cc

    pub new_cache :
        new_guarded_db L T validator executor options ≡ built db cache
        → L.new options.capacity ≡ some cache
    unfolding new_guarded_db
    new_cache h = elim (Bool-cases (is_nil validator)) [
      | inl bad ↦ absurd (unfold new_guarded_db in ground arith)
      | inr v ↦ elim (Bool-cases (is_nil executor)) [
        | inl bad ↦ absurd (unfold new_guarded_db in ground arith)
        | inr x ↦ elim (Bool-cases (is_positive options.capacity)) [
          | inr bad ↦ absurd (unfold new_guarded_db in ground arith)
          | inl c ↦ elim (Bool-cases (is_positive options.max_sql_bytes)) [
            | inr bad ↦ absurd (unfold new_guarded_db in ground arith)
            | inl m ↦ with_cache-some _ (L.new options.capacity) (rw (v, x, c, m) at h)
          ]
        ]
      ]
    ]
