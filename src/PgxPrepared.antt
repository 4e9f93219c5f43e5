-- ===== src/PgxPrepared.antt =====
-- example/pgx-prepared/guarded.go: a query executor behind an engine and a cache of prepared values.
pub mod LruCache
pub mod Db
pub mod Guards
pub mod History
pub mod Runs
pub mod Decisions
pub mod Looks
pub mod Follows
pub mod EndToEnd
pub mod Transparency
use postgres_sqlguard.Common.{
  ℕ, zero, suc, Bool, true, false, not, List, [], ◌∷◌, Option, none, some, GoString, ascii, length,
  leb, ℤ, pos, negsuc, if◌then◌else◌,
}
use postgres_sqlguard.Errors.{GoError, Violation, errors_new, as_violation}
use postgres_sqlguard.Runtime.{Outcome, Action}
use postgres_sqlguard.Interface.{Interface, holds, nil_interface, nilable}
use postgres_sqlguard.Contracts.{Prepared}

abbrev pub err_nil_validator : GoError
err_nil_validator = errors_new (ascii "sqlguard pgx-prepared example: validator must not be nil")

abbrev pub err_nil_executor : GoError
err_nil_executor = errors_new (ascii "sqlguard pgx-prepared example: executor must not be nil")

abbrev pub err_invalid_capacity : GoError
err_invalid_capacity =
    errors_new (ascii "sqlguard pgx-prepared example: cache capacity must be positive")

abbrev pub err_invalid_max_sql_bytes : GoError
err_invalid_max_sql_bytes =
    errors_new (ascii "sqlguard pgx-prepared example: maximum SQL bytes must be positive")

abbrev pub err_query_rewriter_unsupported : GoError
err_query_rewriter_unsupported =
    errors_new (ascii "sqlguard pgx-prepared example: query rewriting is unsupported")

-- An `any`: one that implements `pgx.QueryRewriter`, or another value.
pub data Argument : Type 0 where
  query_rewriter : ℕ → Argument
  plain : ℕ → Argument

-- The world of the collaborators, contexts, and pgx's command tags, rows and row.
pub record Setting : Type 1 where
  pub World : Type 0
  pub Ctx : Type 0
  pub Tag : Type 0
  pub Rows : Type 0
  pub Row : Type 0
  pub zero_tag : Tag

-- `PreparedValidator`
pub record PreparedValidator (T : Setting) : Type 0 where
  pub prepare : T.Ctx → GoString → Action T.World (Prepared × Option GoError)
  pub validate_prepared : T.Ctx → Prepared → Action T.World (Option GoError)

-- `Executor`; nil rows are `none`.
pub record Executor (T : Setting) : Type 0 where
  pub exec : T.Ctx → GoString → List Argument → Action T.World (T.Tag × Option GoError)
  pub query : T.Ctx → GoString → List Argument → Action T.World (Option T.Rows × Option GoError)
  pub query_row : T.Ctx → GoString → List Argument → Action T.World T.Row

-- A `pgx.Row` that the wrapper returns: the executor's, or a `failedRow`.
pub data GuardedRow (Row : Type 0) : Type 0 where
  executor_row : Row → GuardedRow Row
  failed_row : GoError → GuardedRow Row

pub record CacheOptions : Type 0 where
  pub capacity : ℤ
  pub max_sql_bytes : ℤ

-- The calls that the wrapper makes of its collaborators.
pub data DbCall : Type 0 where
  prepared_text : GoString → DbCall
  validated_value : Prepared → DbCall
  executed : GoString → List Argument → DbCall
  queried : GoString → List Argument → DbCall
  queried_row : GoString → List Argument → DbCall

-- `n > 0` of an int.
unfoldable pub is_positive : ℤ → Bool
is_positive (pos zero) = false
is_positive (pos (suc n)) = true
is_positive (negsuc n) = false

-- `len(sql) <= maxSQLBytes`
unfoldable pub fits : GoString → ℤ → Bool
fits sql (pos n) = leb (length sql) n
fits sql (negsuc n) = false

-- `isCacheableValidationOutcome`
unfoldable pub is_cacheable_validation_outcome : Option GoError → Bool
is_cacheable_validation_outcome none = true
is_cacheable_validation_outcome (some err) = elim (as_violation err) [
  | none ↦ false
  | some v ↦ true
]

-- `isNil`
unfoldable pub is_nil : {A : Type 0} → Interface A → Bool
is_nil nil_interface = true
is_nil (holds kind null value) = if nilable kind then null else false

-- `containsQueryRewriter`
unfoldable pub contains_query_rewriter : List Argument → Bool
contains_query_rewriter [] = false
contains_query_rewriter (query_rewriter n ∷ arguments) = true
contains_query_rewriter (plain n ∷ arguments) = contains_query_rewriter arguments

-- The caller's world with the cache that the wrapper's pointer refers to.
pub record Held (W Cache : Type 0) : Type 0 where
  pub outer : W
  pub cache : Cache

abbrev pub lift : {W Cache A : Type 0} → Action W A → Action (Held W Cache) A
lift action s =
    let (outcome, w) = action s.outer in (outcome, record { outer = w; cache = s.cache })

-- `GuardedDB`; the cache itself is in the state.
pub record GuardedDb (T : Setting) : Type 0 where
  pub validator : Interface (PreparedValidator T)
  pub executor : Interface (Executor T)
  pub max_sql_bytes : ℤ
