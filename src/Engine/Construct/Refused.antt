-- ===== src/Engine/Construct/Refused.antt =====
-- `NewEngine` of engine.go against what it is to return, each refusal included.
use postgres_sqlguard.Common.{◌≡◌, List, ◌++◌, Option, none, some, GoString}
use postgres_sqlguard.Errors.{GoError}
use postgres_sqlguard.Runtime.{Outcome, returned, panicked, State}
use postgres_sqlguard.Interface.{Interface}
use postgres_sqlguard.Contracts.{Call, Rule, Engine, EngineOptions}
use postgres_sqlguard.Engine.Construct.{Checked, valid, invalid, Construction}
use postgres_sqlguard.Engine.Construct.Accepted.{Accepted}
use postgres_sqlguard.Engine.Construct.Refusals.{CheckRun, NewRun}

-- The error that `validateRules` returns, if any.
abbrev error_of : Outcome Checked → Outcome (Option GoError)
error_of (returned (valid ids)) = returned none
error_of (returned (invalid err)) = returned (some err)
error_of panicked = panicked

module _ {W : Type 0} where
  abbrev Follows :
      List GoString
      → List (Interface (Rule W))
      → State W Call
      → Outcome Checked × State W Call
      → Type 0
  Follows seen rules s r =
      (calls : List Call) × (r.1.trace ≡ s.trace ++ calls)
      × CheckRun seen rules s.world calls (error_of r.0)

  module _ (options : EngineOptions W) (rules : List (Interface (Rule W))) (s : State W Call) where
    abbrev Runs : Outcome (Construction W) × State W Call → Type 0
    Runs r =
        (calls : List Call) × (r.1.trace ≡ s.trace ++ calls)
        × NewRun options rules s.world calls r.0
