-- ===== src/Rules/Mutation.antt =====
-- pkg/rules/mutation.go
use postgres_sqlguard.Common.{false, not, none, some, GoString, ascii, str_eq, if◌then◌else◌}
use postgres_sqlguard.Parser.Node.{Kind}
use postgres_sqlguard.Statement.{Statement, statement_kind, child}
use postgres_sqlguard.Rule.{RuleResult, allow, reject}
use postgres_sqlguard.Runtime.{returned}
use postgres_sqlguard.Interface.{Interface, holds, struct_kind}
use postgres_sqlguard.Contracts.{Rule}

abbrev pub update_requires_where_rule_id : GoString
update_requires_where_rule_id = ascii "update_requires_where"

abbrev pub delete_requires_where_rule_id : GoString
delete_requires_where_rule_id = ascii "delete_requires_where"

abbrev pub update_statement_kind : Kind
update_statement_kind = ascii "UpdateStmt"

abbrev pub delete_statement_kind : Kind
delete_statement_kind = ascii "DeleteStmt"

abbrev pub where_clause_field : GoString
where_clause_field = ascii "where_clause"

-- `requireWhereClause`
unfoldable pub require_where_clause : Statement → Kind → RuleResult
require_where_clause statement target_kind =
    if not (str_eq (statement_kind statement) target_kind)
    then allow
    else elim (child statement.root where_clause_field) [ some _ ↦ allow | none ↦ reject ]

module _ {W : Type 0} where
  abbrev pub update_requires_where : Rule W
  update_requires_where = record {
    id = λ w. (returned update_requires_where_rule_id, w);
    evaluate =
        λ ctx statement w. (returned (require_where_clause statement update_statement_kind), w);
  }

  abbrev pub delete_requires_where : Rule W
  delete_requires_where = record {
    id = λ w. (returned delete_requires_where_rule_id, w);
    evaluate =
        λ ctx statement w. (returned (require_where_clause statement delete_statement_kind), w);
  }

  -- `NewUpdateRequiresWhere`, `NewDeleteRequiresWhere`: structs in an interface.
  abbrev pub new_update_requires_where : Interface (Rule W)
  new_update_requires_where = holds struct_kind false update_requires_where

  abbrev pub new_delete_requires_where : Interface (Rule W)
  new_delete_requires_where = holds struct_kind false delete_requires_where
