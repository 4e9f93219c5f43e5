-- ===== src/Rules/Ddl.antt =====
-- pkg/rules/ddl.go
use postgres_sqlguard.Common.{Bool, false, not, ◌||◌, GoString, ascii, str_eq, if◌then◌else◌}
use postgres_sqlguard.Parser.Node.{Kind}
use postgres_sqlguard.Statement.{Statement, statement_kind, enum_field}
use postgres_sqlguard.Rule.{RuleResult, allow, reject}
use postgres_sqlguard.Runtime.{returned}
use postgres_sqlguard.Interface.{Interface, holds, struct_kind}
use postgres_sqlguard.Contracts.{Rule}

abbrev pub deny_truncate_rule_id : GoString
deny_truncate_rule_id = ascii "deny_truncate"

abbrev pub deny_drop_table_rule_id : GoString
deny_drop_table_rule_id = ascii "deny_drop_table"

abbrev pub deny_alter_table_rule_id : GoString
deny_alter_table_rule_id = ascii "deny_alter_table"

abbrev pub truncate_statement_kind : Kind
truncate_statement_kind = ascii "TruncateStmt"

abbrev pub drop_statement_kind : Kind
drop_statement_kind = ascii "DropStmt"

abbrev pub alter_table_statement_kind : Kind
alter_table_statement_kind = ascii "AlterTableStmt"

abbrev pub alter_table_move_all_kind : Kind
alter_table_move_all_kind = ascii "AlterTableMoveAllStmt"

abbrev pub drop_object_type_field : GoString
drop_object_type_field = ascii "remove_type"

abbrev pub alter_object_type_field : GoString
alter_object_type_field = ascii "objtype"

abbrev pub table_object_type : GoString
table_object_type = ascii "OBJECT_TABLE"

-- `denyTruncate.Evaluate`
unfoldable pub evaluate_truncate : Statement → RuleResult
evaluate_truncate statement =
    if str_eq (statement_kind statement) truncate_statement_kind then reject else allow

-- The test on the object type, shared by the next two: `!ok || objectType == tableObjectType`.
unfoldable pub evaluate_object_type : GoString × Bool → RuleResult
evaluate_object_type (object_type, ok) =
    if not ok || str_eq object_type table_object_type then reject else allow

-- `denyDropTable.Evaluate`
unfoldable pub evaluate_drop_table : Statement → RuleResult
evaluate_drop_table statement =
    if not (str_eq (statement_kind statement) drop_statement_kind)
    then allow
    else evaluate_object_type (enum_field statement.root drop_object_type_field)

-- `denyAlterTable.Evaluate`
unfoldable pub evaluate_alter_table : Statement → RuleResult
evaluate_alter_table statement =
    if str_eq (statement_kind statement) alter_table_statement_kind
      || str_eq (statement_kind statement) alter_table_move_all_kind
    then evaluate_object_type (enum_field statement.root alter_object_type_field)
    else allow

module _ {W : Type 0} where
  abbrev pub deny_truncate : Rule W
  deny_truncate = record {
    id = λ w. (returned deny_truncate_rule_id, w);
    evaluate = λ ctx statement w. (returned (evaluate_truncate statement), w);
  }

  abbrev pub deny_drop_table : Rule W
  deny_drop_table = record {
    id = λ w. (returned deny_drop_table_rule_id, w);
    evaluate = λ ctx statement w. (returned (evaluate_drop_table statement), w);
  }

  abbrev pub deny_alter_table : Rule W
  deny_alter_table = record {
    id = λ w. (returned deny_alter_table_rule_id, w);
    evaluate = λ ctx statement w. (returned (evaluate_alter_table statement), w);
  }

  -- `NewDenyTruncate`, `NewDenyDropTable`, `NewDenyAlterTable`
  abbrev pub new_deny_truncate : Interface (Rule W)
  new_deny_truncate = holds struct_kind false deny_truncate

  abbrev pub new_deny_drop_table : Interface (Rule W)
  new_deny_drop_table = holds struct_kind false deny_drop_table

  abbrev pub new_deny_alter_table : Interface (Rule W)
  new_deny_alter_table = holds struct_kind false deny_alter_table
