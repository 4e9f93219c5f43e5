-- ===== src/Tests/Building.antt =====
-- engine.go: `NewEngine` of a rule given twice, and an error of `Validate`; and the size probe.
use postgres_sqlguard.Common.{◌≡◌, ◌↔◌, List, [], ◌∷◌, GoString, In}
use postgres_sqlguard.Runtime.{returned}
use postgres_sqlguard.Interface.{Interface, nil_interface}
use postgres_sqlguard.Contracts.{EngineOptions, Rule}
use postgres_sqlguard.Engine.{validate}
use postgres_sqlguard.Engine.Messages.{Discreet, validate-Discreet}
use postgres_sqlguard.Rules.Builtin.{truncate, rule_of}
use postgres_sqlguard.SizeProbe.{queries, main}
use postgres_sqlguard.SizeProbe.Returns.{Harmless, main-returns}
use postgres_sqlguard.Tests.Samples.{
  backend, live_context, where_engine, good_text, start, logger_sink,
}

abbrev twice : List (Interface (Rule (Unit {0})))
twice = rule_of truncate ∷ rule_of truncate ∷ []

abbrev logging_options : EngineOptions (Unit {0})
logging_options = record { metrics = nil_interface; logger = logger_sink }

main-returns_example :
    ((main backend start).0 ≡ returned tt)
    ↔ ((sql : GoString) → In sql queries → Harmless backend sql)
main-returns_example = main-returns backend start

-- The text has a DELETE without a WHERE clause in a WITH clause.
validate-Discreet_example :
    Discreet live_context (validate backend where_engine live_context good_text start).0
validate-Discreet_example = validate-Discreet live_context where_engine backend good_text start
