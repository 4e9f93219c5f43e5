-- ===== src/Rules/Insert.antt =====
-- pkg/rules/insert.go
use postgres_sqlguard.Common.{false, not, GoString, ascii, str_eq, length, ltb, if◌then◌else◌}
use postgres_sqlguard.Parser.Node.{Kind}
use postgres_sqlguard.Statement.{Statement, statement_kind, children}
use postgres_sqlguard.Rule.{RuleResult, allow, reject}
use postgres_sqlguard.Runtime.{returned}
use postgres_sqlguard.Interface.{Interface, holds, struct_kind}
use postgres_sqlguard.Contracts.{Rule}

abbrev pub insert_requires_columns_rule_id : GoString
insert_requires_columns_rule_id = ascii "insert_requires_columns"

abbrev pub insert_statement_kind : Kind
insert_statement_kind = ascii "InsertStmt"

abbrev pub insert_columns_field : GoString
insert_columns_field = ascii "cols"

-- `insertRequiresColumns.Evaluate`
unfoldable pub require_columns : Statement → RuleResult
require_columns statement =
    if not (str_eq (statement_kind statement) insert_statement_kind)
    then allow
    else if ltb 0 (length (children statement.root insert_columns_field))
    then allow
    else reject

module _ {W : Type 0} where
  abbrev pub insert_requires_columns : Rule W
  insert_requires_columns = record {
    id = λ w. (returned insert_requires_columns_rule_id, w);
    evaluate = λ ctx statement w. (returned (require_columns statement), w);
  }

  -- `NewInsertRequiresColumns`
  abbrev pub new_insert_requires_columns : Interface (Rule W)
  new_insert_requires_columns = holds struct_kind false insert_requires_columns
