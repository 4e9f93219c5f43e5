-- ===== src/Tests/Engines.antt =====
-- engine.go: the theorems at concrete engines.
use postgres_sqlguard.Common.{ascii, str_eq, ◌≡◌, ◌↔◌, refl, List, [], ◌∷◌, ◌++◌, none, GoString}
use postgres_sqlguard.Parser.Result.{Result}
use postgres_sqlguard.Parser.Node.{size, kind, to_list, from_list, get_field, as_node, as_list}
use postgres_sqlguard.Parser.Convert.{
  parse, parsed, has_nul, convert_statements, convert_value, convert_pg_node,
}
use postgres_sqlguard.Rules.Ddl.{evaluate_truncate}
use postgres_sqlguard.Parser.Traversal.{statement_sequence}
use postgres_sqlguard.Statement.{Statement, statement_kind}
use postgres_sqlguard.Rule.{rejected, allow}
use postgres_sqlguard.Runtime.{returned}
use postgres_sqlguard.Interface.{nil_interface, invoke}
use postgres_sqlguard.Contracts.{Call, EngineOptions, zero_prepared}
use postgres_sqlguard.Engine.{validate, validate_prepared, emit_metrics}
use postgres_sqlguard.Engine.Session.{Session, PreparedRun}
use postgres_sqlguard.Engine.Refines.{validate-Session, validate_prepared-PreparedRun}
use postgres_sqlguard.Engine.Events.{Reported, validate-Reported, validate_prepared-Reported}
use postgres_sqlguard.Engine.Evaluations.{
  evaluations, all_pairs, askable, validate_allowed-all, validate-evaluates_prefix,
}
use postgres_sqlguard.Engine.Verdicts.{validate-any_sinks}
use postgres_sqlguard.Engine.Policy.{policy, validate-policy}
use postgres_sqlguard.Engine.Guarantee.{Clean, validate_allowed_iff}
use postgres_sqlguard.Rules.Builtin.{truncate}
use postgres_sqlguard.Rules.Guarantee.{
  NoneForbidden, rejects_at, decides, validate_builtins_iff, registered_all,
}
use postgres_sqlguard.Tests.Samples.{
  backend, good_text, live_context, where_rules, where_engine, truncate_engine, metrics_sink,
  logger_sink, start,
}

validate-Session_example :
    (calls : List Call) × ((validate backend where_engine live_context good_text start).1.trace
      ≡ start.trace ++ calls)
    × Session backend where_engine live_context good_text tt calls
        (validate backend where_engine live_context good_text start).0
validate-Session_example = validate-Session where_engine live_context backend good_text start

validate_prepared-PreparedRun_example :
    (calls : List Call) × ((validate_prepared where_engine live_context zero_prepared start).1.trace
      ≡ start.trace ++ calls)
    × PreparedRun where_engine live_context none tt calls
        (validate_prepared where_engine live_context zero_prepared start).0
validate_prepared-PreparedRun_example =
    validate_prepared-PreparedRun where_engine live_context zero_prepared start

validate-Reported_example :
    (calls : List Call) × ((validate backend where_engine live_context good_text start).1.trace
      ≡ start.trace ++ calls)
    × Reported where_engine live_context calls
        (validate backend where_engine live_context good_text start).0
validate-Reported_example = validate-Reported where_engine live_context backend good_text start

validate_prepared-Reported_example :
    (calls : List Call) × ((validate_prepared where_engine live_context zero_prepared start).1.trace
      ≡ start.trace ++ calls)
    × Reported where_engine live_context calls
        (validate_prepared where_engine live_context zero_prepared start).0
validate_prepared-Reported_example =
    validate_prepared-Reported where_engine live_context zero_prepared start

validate-evaluates_prefix_example :
    (calls : List Call) × (rest : List (GoString × Statement)) × ((validate backend where_engine
        live_context good_text start).1.trace
      ≡ start.trace ++ calls)
    × (askable where_engine live_context backend good_text (parse backend good_text)
        ≡ evaluations calls ++ rest)
validate-evaluates_prefix_example =
    validate-evaluates_prefix where_engine live_context backend good_text start

validate-any_sinks_example :
    (validate backend
      (record { rules = registered_all where_rules; metrics = metrics_sink; logger = logger_sink })
      live_context
      good_text
      start).0
    ≡ (validate backend
        (record {
          rules = registered_all where_rules;
          metrics = nil_interface;
          logger = nil_interface;
        })
        live_context
        good_text
        start).0
validate-any_sinks_example =
    validate-any_sinks backend (registered_all where_rules) metrics_sink nil_interface logger_sink
      nil_interface live_context good_text start

live : (w : Unit {0}) → (w' : Unit {0}) × (live_context.err w ≡ (returned none, w'))
live w = (w, refl)

validate-policy_example :
    (validate backend where_engine live_context good_text start).0
    ≡ returned (policy (rejects_at live_context tt) where_engine.rules (parse backend good_text))
validate-policy_example =
    validate-policy backend where_engine live_context good_text start (rejects_at live_context tt)
      (decides live_context live tt where_rules)

validate_allowed_iff_example :
    ((validate backend truncate_engine live_context good_text start).0 ≡ returned none) ↔ (
      (r : Result) × (parse backend good_text ≡ parsed r)
      × Clean (rejects_at live_context tt) truncate_engine.rules r)
validate_allowed_iff_example =
    validate_allowed_iff backend truncate_engine live_context good_text start
      (rejects_at live_context tt) (decides live_context live tt (truncate ∷ []))

validate_builtins_iff_example :
    ((validate backend truncate_engine live_context good_text start).0 ≡ returned none)
    ↔ ((r : Result) × (parse backend good_text ≡ parsed r) × NoneForbidden (truncate ∷ []) r)
validate_builtins_iff_example =
    validate_builtins_iff backend truncate_engine live_context good_text start (truncate ∷ []) live
      refl

-- The text has an UPDATE with a DELETE below it, and no TRUNCATE.
allows : (validate backend truncate_engine live_context good_text start).0 ≡ returned none
unfolding validate parse has_nul ascii str_eq convert_statements size convert_value to_list
    from_list convert_pg_node statement_sequence get_field as_node as_list evaluate_truncate
    rejected invoke emit_metrics statement_kind kind allow
allows = refl

validate_allowed-all_example :
    (r : Result) × (calls : List Call) × (parse backend good_text ≡ parsed r)
    × ((validate backend truncate_engine live_context good_text start).1.trace
        ≡ start.trace ++ calls)
    × (evaluations calls ≡ all_pairs truncate_engine live_context r)
validate_allowed-all_example =
    validate_allowed-all truncate_engine live_context backend good_text start allows

abbrev engine_options : EngineOptions (Unit {0})
engine_options = record { metrics = metrics_sink; logger = logger_sink }
