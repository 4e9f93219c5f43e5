-- ===== src/Rules/Builtin.antt =====
-- pkg/rules: the six rules together, and what each forbids.
use postgres_sqlguard.Common.{◌≡◌, ◌⊎◌, Option, GoString}
use postgres_sqlguard.Parser.Node.{Node, Value, enum, kind}
use postgres_sqlguard.Statement.{Statement}
use postgres_sqlguard.Statement.Fields.{FieldOf, IsNode}
use postgres_sqlguard.Statement.Children.{HoldsNode}
use postgres_sqlguard.Rule.{RuleResult}
use postgres_sqlguard.Interface.{Interface}
use postgres_sqlguard.Contracts.{Rule}
use postgres_sqlguard.Rules.Mutation.{
  update_requires_where_rule_id, delete_requires_where_rule_id, update_statement_kind,
  delete_statement_kind, where_clause_field, require_where_clause, new_update_requires_where,
  new_delete_requires_where,
}
use postgres_sqlguard.Rules.Insert.{
  insert_requires_columns_rule_id, insert_statement_kind, insert_columns_field, require_columns,
  new_insert_requires_columns,
}
use postgres_sqlguard.Rules.Ddl.{
  deny_truncate_rule_id, deny_drop_table_rule_id, deny_alter_table_rule_id, truncate_statement_kind,
  drop_statement_kind, alter_table_statement_kind, alter_table_move_all_kind,
  drop_object_type_field, alter_object_type_field, table_object_type, evaluate_truncate,
  evaluate_drop_table, evaluate_alter_table, new_deny_truncate, new_deny_drop_table,
  new_deny_alter_table,
}

pub data Builtin : Type 0 where
  update_where delete_where insert_columns truncate drop_table alter_table : Builtin

-- The rule that each constructor of the package returns.
abbrev pub rule_of : {W : Type 0} → Builtin → Interface (Rule W)
rule_of update_where = new_update_requires_where
rule_of delete_where = new_delete_requires_where
rule_of insert_columns = new_insert_requires_columns
rule_of truncate = new_deny_truncate
rule_of drop_table = new_deny_drop_table
rule_of alter_table = new_deny_alter_table

abbrev pub id_of : Builtin → GoString
id_of update_where = update_requires_where_rule_id
id_of delete_where = delete_requires_where_rule_id
id_of insert_columns = insert_requires_columns_rule_id
id_of truncate = deny_truncate_rule_id
id_of drop_table = deny_drop_table_rule_id
id_of alter_table = deny_alter_table_rule_id

abbrev pub evaluate_builtin : Builtin → Statement → RuleResult
evaluate_builtin update_where st = require_where_clause st update_statement_kind
evaluate_builtin delete_where st = require_where_clause st delete_statement_kind
evaluate_builtin insert_columns st = require_columns st
evaluate_builtin truncate st = evaluate_truncate st
evaluate_builtin drop_table st = evaluate_drop_table st
evaluate_builtin alter_table st = evaluate_alter_table st

-- Of that kind, with no node in its WHERE field.
abbrev pub LacksWhere : GoString → Option Node → Type 0
LacksWhere k p = (kind p ≡ k) × (¬ ((v : Value) × FieldOf p where_clause_field v × IsNode v))

-- No field of that name holds an enum symbol other than `OBJECT_TABLE`.
abbrev pub MayBeTable : GoString → Option Node → Type 0
MayBeTable name p = (s : GoString) → FieldOf p name (enum s) → s ≡ table_object_type

-- The statements that each rule is to reject.
abbrev pub Forbidden : Builtin → Option Node → Type 0
Forbidden update_where p = LacksWhere update_statement_kind p
Forbidden delete_where p = LacksWhere delete_statement_kind p
Forbidden insert_columns p = (kind p ≡ insert_statement_kind) × (¬ HoldsNode p insert_columns_field)
Forbidden truncate p = kind p ≡ truncate_statement_kind
Forbidden drop_table p = (kind p ≡ drop_statement_kind) × MayBeTable drop_object_type_field p
Forbidden alter_table p =
    ((kind p ≡ alter_table_statement_kind) ⊎ (kind p ≡ alter_table_move_all_kind))
    × MayBeTable alter_object_type_field p
