-- ===== src/Tests/Samples.antt =====
-- A backend that parses one text, a few statements, and engines.
use postgres_sqlguard.Common.{
  false, List, [], ◌∷◌, none, some, GoString, ascii, str_eq, if◌then◌else◌,
}
use postgres_sqlguard.Parser.Node.{Node, node, end, field, node_value, nil_node, list, nil, cons}
use postgres_sqlguard.Parser.Protobuf.{Backend, tree, refused}
use postgres_sqlguard.Runtime.{returned, panicked, State}
use postgres_sqlguard.Interface.{Interface, nil_interface, holds, pointer_kind}
use postgres_sqlguard.Contracts.{Call, Context, Metrics, Logger, Engine}
use postgres_sqlguard.Rules.Builtin.{Builtin, update_where, delete_where, truncate}
use postgres_sqlguard.Rules.Guarantee.{registered_all}
use postgres_sqlguard.Tests.Messages.{proto}

-- `DELETE FROM t`, with no WHERE clause.
abbrev pub delete_all : Node
delete_all =
    node (ascii "DeleteStmt")
      (field (ascii "relation") (node_value (node (ascii "RangeVar") end)) end)

-- `WITH c AS (DELETE FROM t) UPDATE u SET a = 1 WHERE b`
abbrev pub update_with : Node
update_with = node (ascii "UpdateStmt") (
    field (ascii "where_clause") (node_value (node (ascii "ColumnRef") end)) (
      field (ascii "with_clause")
        (node_value (
          node (ascii "WithClause") (
            field (ascii "ctes")
              (list (
                cons
                  (node_value (
                    node (ascii "CommonTableExpr")
                      (field (ascii "ctequery") (node_value delete_all) end)))
                  nil))
              end)))
        end))

-- `SELECT DISTINCT f()`: PostgreSQL's plain DISTINCT is a list with one nil node.
abbrev pub select_distinct : Node
select_distinct = node (ascii "SelectStmt") (
    field (ascii "distinct_clause") (list (cons nil_node nil)) (
      field (ascii "target_list") (list (cons (node_value (node (ascii "ResTarget") end)) nil))
        end))

abbrev pub good_text : GoString
good_text = ascii "WITH c AS (DELETE FROM t) UPDATE u SET a = 1 WHERE b"

-- Parses one text, and nothing else.
abbrev pub backend : Backend
backend = record {
  proto = proto;
  parse_backend = λ sql.
      if str_eq sql good_text
      then tree (some (some update_with) ∷ [])
      else refused (ascii "syntax error");
}

-- A context that never ends.
abbrev pub live_context : Context (Unit {0})
live_context = record { err = λ w. (returned none, w) }

abbrev pub quiet_metrics : Metrics (Unit {0})
quiet_metrics = record { record_validation = λ event w. (returned none, w) }

-- A logger that panics on every event.
abbrev pub broken_logger : Logger (Unit {0})
broken_logger = record { log_validation = λ event w. (panicked, w) }

abbrev pub metrics_sink : Interface (Metrics (Unit {0}))
metrics_sink = holds pointer_kind false quiet_metrics

abbrev pub logger_sink : Interface (Logger (Unit {0}))
logger_sink = holds pointer_kind false broken_logger

abbrev pub where_rules : List Builtin
where_rules = update_where ∷ delete_where ∷ []

abbrev pub where_engine : Engine (Unit {0})
where_engine = record {
  rules = registered_all where_rules;
  metrics = metrics_sink;
  logger = logger_sink;
}

-- An engine that denies TRUNCATE alone.
abbrev pub truncate_engine : Engine (Unit {0})
truncate_engine = record {
  rules = registered_all (truncate ∷ []);
  metrics = metrics_sink;
  logger = nil_interface;
}

abbrev pub start : State (Unit {0}) Call
start = record { world = tt; trace = [] }
