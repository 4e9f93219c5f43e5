-- ===== src/Pgx.antt =====
-- example/pgx/guarded.go: a query executor behind a validator. The executor, its arguments and its
-- rows are those of PgxPrepared, whose source declares the same interface.
pub mod Protocol
pub mod EndToEnd
use postgres_sqlguard.Common.{
  Bool, true, false, List, [], ◌∷◌, Option, none, some, GoString, ascii, if◌then◌else◌,
}
use postgres_sqlguard.Errors.{GoError, errors_new}
use postgres_sqlguard.Runtime.{Outcome, Action, Go, pure, ◌>>=◌, perform, continue}
use postgres_sqlguard.Interface.{Interface, holds, invoke, nil_interface, nilable}
use postgres_sqlguard.PgxPrepared.{
  Setting, Executor, Argument, query_rewriter, plain, GuardedRow, executor_row, failed_row,
}

abbrev pub err_nil_validator : GoError
err_nil_validator = errors_new (ascii "sqlguard pgx example: validator must not be nil")

abbrev pub err_nil_executor : GoError
err_nil_executor = errors_new (ascii "sqlguard pgx example: executor must not be nil")

abbrev pub err_query_rewriter_unsupported : GoError
err_query_rewriter_unsupported =
    errors_new (ascii "sqlguard pgx example: query rewriting is unsupported")

-- `Validator` of validator.go.
pub record Validator (T : Setting) : Type 0 where
  pub validate : T.Ctx → GoString → Action T.World (Option GoError)

-- `GuardedDB`
pub record GuardedDb (T : Setting) : Type 0 where
  pub validator : Interface (Validator T)
  pub executor : Interface (Executor T)

-- The calls that the wrapper makes of its collaborators.
pub data DbCall : Type 0 where
  validated_text : GoString → DbCall
  executed : GoString → List Argument → DbCall
  queried : GoString → List Argument → DbCall
  queried_row : GoString → List Argument → DbCall

-- The results of `NewGuardedDB`.
pub data NewDb (D : Type 0) : Type 0 where
  built : D → NewDb D
  refused : GoError → NewDb D

-- `containsQueryRewriter`
unfoldable pub contains_query_rewriter : List Argument → Bool
contains_query_rewriter [] = false
contains_query_rewriter (query_rewriter n ∷ arguments) = true
contains_query_rewriter (plain n ∷ arguments) = contains_query_rewriter arguments

-- `isNil`
unfoldable pub is_nil : {A : Type 0} → Interface A → Bool
is_nil nil_interface = true
is_nil (holds kind null value) = if nilable kind then null else false

module _ (T : Setting) where
  open T use {World, Ctx, Tag, Rows, Row}

  -- `NewGuardedDB`
  unfoldable pub new_guarded_db :
      Interface (Validator T) → Interface (Executor T) → NewDb (GuardedDb T)
  new_guarded_db validator executor =
      if is_nil validator
      then refused err_nil_validator
      else if is_nil executor
      then refused err_nil_executor
      else built (record { validator = validator; executor = executor })

  -- A method up to the call of the executor: its refusal of an error, and what follows.
  unfoldable pub guard :
      {A : Type 0}
      → GuardedDb T
      → Ctx
      → GoString
      → List Argument
      → (GoError → A)
      → Go World DbCall A
      → Go World DbCall A
  unfolding perform
  guard db ctx sql arguments refusal delegate =
      if contains_query_rewriter arguments
      then pure (refusal err_query_rewriter_unsupported)
      else perform (validated_text sql) (invoke db.validator (λ v. v.validate ctx sql)) >>= λ err.
          elim err [ some x ↦ pure (refusal x) | none ↦ delegate ]

  -- `GuardedDB.Exec`
  unfoldable pub exec :
      GuardedDb T → Ctx → GoString → List Argument → Go World DbCall (Tag × Option GoError)
  unfolding guard perform
  exec db ctx sql arguments =
      guard db ctx sql arguments (λ err. (T.zero_tag, some err))
        (perform (executed sql arguments) (invoke db.executor (λ x. x.exec ctx sql arguments)))

  -- `GuardedDB.Query`
  unfoldable pub query :
      GuardedDb T → Ctx → GoString → List Argument → Go World DbCall (Option Rows × Option GoError)
  unfolding guard perform
  query db ctx sql args =
      guard db ctx sql args (λ err. (none, some err))
        (perform (queried sql args) (invoke db.executor (λ x. x.query ctx sql args)))

  -- `GuardedDB.QueryRow`
  unfoldable pub query_row :
      GuardedDb T → Ctx → GoString → List Argument → Go World DbCall (GuardedRow Row)
  unfolding guard perform
  query_row db ctx sql args = guard db ctx sql args failed_row (
      perform (queried_row sql args) (invoke db.executor (λ x. x.query_row ctx sql args)) >>= λ row.
      pure (executor_row row))
