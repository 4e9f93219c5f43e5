-- ===== src/PgxPrepared/Db.antt =====
-- The constructor and the methods of `GuardedDB` in example/pgx-prepared/guarded.go.
use postgres_sqlguard.Common.{not, ◌&&◌, List, Option, none, some, GoString, if◌then◌else◌}
use postgres_sqlguard.Errors.{GoError}
use postgres_sqlguard.Runtime.{returned, Go, pure, ◌>>=◌, ◌>>◌, perform}
use postgres_sqlguard.Interface.{Interface, invoke}
use postgres_sqlguard.Contracts.{Prepared}
use postgres_sqlguard.PgxPrepared.{
  is_nil, Setting, PreparedValidator, Executor, GuardedDb, GuardedRow, executor_row, failed_row,
  CacheOptions, Held, lift, Argument, DbCall, prepared_text, validated_value, executed, queried,
  queried_row, is_positive, fits, is_cacheable_validation_outcome, contains_query_rewriter,
  err_nil_validator, err_nil_executor, err_invalid_capacity, err_invalid_max_sql_bytes,
  err_query_rewriter_unsupported,
}
use postgres_sqlguard.PgxPrepared.LruCache.{Lru}

-- The results of `NewGuardedDB`; the new cache goes into the state.
pub data NewDb (D Cache : Type 0) : Type 0 where
  built : D → Cache → NewDb D Cache
  refused : GoError → NewDb D Cache

module _ (L : Lru) (T : Setting) where
  open T use {Ctx, Tag, Rows, Row}

  abbrev pub Step : Type 0 → Type 0
  Step A = Go (Held T.World L.Cache) DbCall A

  -- `NewGuardedDB` after its checks.
  unfoldable pub with_cache : GuardedDb T → Option L.Cache → NewDb (GuardedDb T) L.Cache
  with_cache db none = refused err_invalid_capacity
  with_cache db (some cache) = built db cache

  -- `NewGuardedDB`
  unfoldable pub new_guarded_db :
      Interface (PreparedValidator T)
      → Interface (Executor T)
      → CacheOptions
      → NewDb (GuardedDb T) L.Cache
  new_guarded_db validator executor options =
      if is_nil validator
      then refused err_nil_validator
      else if is_nil executor
      then refused err_nil_executor
      else if not (is_positive options.capacity)
      then refused err_invalid_capacity
      else if not (is_positive options.max_sql_bytes)
      then refused err_invalid_max_sql_bytes
      else with_cache
          (record {
            validator = validator;
            executor = executor;
            max_sql_bytes = options.max_sql_bytes;
          })
          (L.new options.capacity)

  -- `db.cache.Get(sql)`, which marks the entry as used.
  unfoldable pub cache_get : GoString → Step (Option Prepared)
  cache_get sql s =
      let (hit, cache) = L.get s.world.cache sql in
      (
        returned hit,
        record { world = record { outer = s.world.outer; cache = cache }; trace = s.trace },
      )

  -- `db.cache.Add(strings.Clone(sql), prepared)`
  unfoldable pub cache_add : GoString → Prepared → Step (Unit {0})
  cache_add sql prepared s = (
    returned tt,
    record {
      world = record { outer = s.world.outer; cache = L.add s.world.cache sql prepared };
      trace = s.trace;
    },
  )

  -- `validate` after its `ValidatePrepared` on a miss.
  unfoldable pub retain : GuardedDb T → GoString → Prepared → Option GoError → Step (Option GoError)
  unfolding cache_add
  retain db sql prepared err =
      if fits sql db.max_sql_bytes && is_cacheable_validation_outcome err
      then cache_add sql prepared >> pure err
      else pure err

  -- `validate` after its `Prepare`.
  unfoldable pub after_prepare :
      GuardedDb T → Ctx → GoString → Prepared × Option GoError → Step (Option GoError)
  unfolding retain perform
  after_prepare db ctx sql (prepared, some err) = pure (some err)
  after_prepare db ctx sql (prepared, none) = do
    err ←
        perform (validated_value prepared)
          (lift (invoke db.validator (λ v. v.validate_prepared ctx prepared)))
    retain db sql prepared err

  -- `validate` after its `Get`.
  unfoldable pub after_get : GuardedDb T → Ctx → GoString → Option Prepared → Step (Option GoError)
  unfolding after_prepare perform
  after_get db ctx sql (some prepared) =
      perform (validated_value prepared)
        (lift (invoke db.validator (λ v. v.validate_prepared ctx prepared)))
  after_get db ctx sql none = do
    result ← perform (prepared_text sql) (lift (invoke db.validator (λ v. v.prepare ctx sql)))
    after_prepare db ctx sql result

  -- `GuardedDB.validate`
  unfoldable pub validate_cached : GuardedDb T → Ctx → GoString → Step (Option GoError)
  unfolding cache_get after_get
  validate_cached db ctx sql = do hit ← cache_get sql; after_get db ctx sql hit

  unfoldable pub exec_after :
      GuardedDb T → Ctx → GoString → List Argument → Option GoError → Step (Tag × Option GoError)
  unfolding perform
  exec_after db ctx sql arguments (some err) = pure (T.zero_tag, some err)
  exec_after db ctx sql arguments none =
      perform (executed sql arguments) (lift (invoke db.executor (λ x. x.exec ctx sql arguments)))

  -- `GuardedDB.Exec`
  unfoldable pub exec : GuardedDb T → Ctx → GoString → List Argument → Step (Tag × Option GoError)
  unfolding validate_cached exec_after
  exec db ctx sql arguments =
      if contains_query_rewriter arguments
      then pure (T.zero_tag, some err_query_rewriter_unsupported)
      else validate_cached db ctx sql >>= exec_after db ctx sql arguments

  unfoldable pub query_after :
      GuardedDb T
      → Ctx
      → GoString
      → List Argument
      → Option GoError
      → Step (Option Rows × Option GoError)
  unfolding perform
  query_after db ctx sql args (some err) = pure (none, some err)
  query_after db ctx sql args none =
      perform (queried sql args) (lift (invoke db.executor (λ x. x.query ctx sql args)))

  -- `GuardedDB.Query`
  unfoldable pub query :
      GuardedDb T → Ctx → GoString → List Argument → Step (Option Rows × Option GoError)
  unfolding validate_cached query_after
  query db ctx sql args =
      if contains_query_rewriter args
      then pure (none, some err_query_rewriter_unsupported)
      else validate_cached db ctx sql >>= query_after db ctx sql args

  unfoldable pub query_row_after :
      GuardedDb T → Ctx → GoString → List Argument → Option GoError → Step (GuardedRow Row)
  unfolding perform
  query_row_after db ctx sql args (some err) = pure (failed_row err)
  query_row_after db ctx sql args none =
      perform (queried_row sql args) (lift (invoke db.executor (λ x. x.query_row ctx sql args)))
      >>= λ row. pure (executor_row row)

  -- `GuardedDB.QueryRow`
  unfoldable pub query_row : GuardedDb T → Ctx → GoString → List Argument → Step (GuardedRow Row)
  unfolding validate_cached query_row_after
  query_row db ctx sql args =
      if contains_query_rewriter args
      then pure (failed_row err_query_rewriter_unsupported)
      else validate_cached db ctx sql >>= query_row_after db ctx sql args
