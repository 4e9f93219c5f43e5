-- ===== src/SizeProbe.antt =====
-- internal/testutil/cmd/sizeprobe/main.go: an engine of two rules that validates three texts.
pub mod Returns
use postgres_sqlguard.Common.{List, [], ◌∷◌, Option, none, some, GoString, ascii}
use postgres_sqlguard.Parser.Protobuf.{Backend}
use postgres_sqlguard.Errors.{GoError}
use postgres_sqlguard.Runtime.{Go, returned, panicked, pure, ◌>>=◌, continue}
use postgres_sqlguard.Interface.{Interface, nil_interface}
use postgres_sqlguard.Contracts.{Call, Context, Engine, EngineOptions, Rule}
use postgres_sqlguard.Engine.{validate}
use postgres_sqlguard.Engine.Construct.{Construction, built, refused, new_engine}
use postgres_sqlguard.Rules.Mutation.{new_update_requires_where, new_delete_requires_where}

module _ {W : Type 0} where
  -- `context.Background()`, which never ends.
  abbrev pub background : Context W
  background = record { err = λ w. (returned none, w) }

  -- `EngineOptions{}`
  abbrev pub no_options : EngineOptions W
  no_options = record { metrics = nil_interface; logger = nil_interface }

  abbrev pub rules : List (Interface (Rule W))
  rules = new_update_requires_where ∷ new_delete_requires_where ∷ []

  -- `panic(err)`
  abbrev panic : GoError → Go W Call (Unit {0})
  panic err s = (panicked, s)

  unfoldable pub after_validate : Go W Call (Unit {0}) → Option GoError → Go W Call (Unit {0})
  after_validate rest (some err) = panic err
  after_validate rest none = rest

  -- The loop over the texts.
  unfoldable pub validate_queries : Backend → Engine W → List GoString → Go W Call (Unit {0})
  unfolding after_validate
  validate_queries backend engine [] = pure tt
  validate_queries backend engine (query ∷ queries) =
      validate backend engine background query
      >>= after_validate (validate_queries backend engine queries)

abbrev pub queries : List GoString
queries =
    ascii "SELECT account_id FROM accounts WHERE active"
    ∷ ascii "UPDATE accounts SET active = false WHERE account_id = 42"
    ∷ ascii "DELETE FROM sessions WHERE expired"
    ∷ []

module _ {W : Type 0} where
  -- `main` after `NewEngine`.
  unfoldable pub after_new_engine : Backend → Construction W → Go W Call (Unit {0})
  unfolding validate_queries
  after_new_engine backend (refused err) = panic err
  after_new_engine backend (built engine) = validate_queries backend engine queries

  -- `main`
  unfoldable pub main : Backend → Go W Call (Unit {0})
  unfolding after_new_engine
  main backend = new_engine no_options rules >>= after_new_engine backend
