-- ===== src/Contracts.antt =====
-- The interfaces of rule.go and observability.go, the values of engine.go and prepared.go, and the
-- calls that a trace of the engine notes.
use postgres_sqlguard.Common.{List, Option, none, GoString}
use postgres_sqlguard.Parser.Result.{Result}
use postgres_sqlguard.Statement.{Statement}
use postgres_sqlguard.Rule.{RuleResult}
use postgres_sqlguard.Errors.{GoError}
use postgres_sqlguard.Observability.{ValidationEvent}
use postgres_sqlguard.Runtime.{Action}
use postgres_sqlguard.Interface.{Interface}

-- The calls of code outside the engine.
pub data Call : Type 0 where
  err_read : Call
  id_read : Call
  parsed_sql : GoString → Call
  evaluated : GoString → Statement → Call
  recorded : ValidationEvent → Call
  logged : ValidationEvent → Call

-- `context.Context`, as far as it is used.
pub record Context (W : Type 0) : Type 0 where
  pub err : Action W (Option GoError)

pub record Rule (W : Type 0) : Type 0 where
  pub id : Action W GoString
  pub evaluate : Context W → Statement → Action W RuleResult

pub record Metrics (W : Type 0) : Type 0 where
  pub record_validation : ValidationEvent → Action W (Option GoError)

pub record Logger (W : Type 0) : Type 0 where
  pub log_validation : ValidationEvent → Action W (Option GoError)

pub record EngineOptions (W : Type 0) : Type 0 where
  pub metrics : Interface (Metrics W)
  pub logger : Interface (Logger W)

pub record RegisteredRule (W : Type 0) : Type 0 where
  pub rule_id : GoString
  pub rule : Interface (Rule W)

pub record Engine (W : Type 0) : Type 0 where
  pub rules : List (RegisteredRule W)
  pub metrics : Interface (Metrics W)
  pub logger : Interface (Logger W)

-- prepared.go; the zero value has a nil result.
pub record Prepared : Type 0 where
  pub result : Option Result

abbrev pub zero_prepared : Prepared
zero_prepared = record { result = none }

-- How the loop over the rules ends: with the statement done, or by a return.
pub data Flow : Type 0 where
  next : Flow
  return : Option GoError → Flow
