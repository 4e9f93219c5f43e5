-- ===== src/Tests/Policies.antt =====
-- rule.go and pkg/rules: witnesses.
use postgres_sqlguard.Common.{◌≡◌, ◌↔◌, true, some, ascii}
use postgres_sqlguard.Rule.{rejected, valid_rule_id}
use postgres_sqlguard.Rule.Identifier.{IsRuleId, valid_rule_id_iff}
use postgres_sqlguard.Statement.{new_statement}
use postgres_sqlguard.Rules.Builtin.{Forbidden, delete_where, evaluate_builtin}
use postgres_sqlguard.Rules.Exact.{builtin-Forbidden}
use postgres_sqlguard.Tests.Samples.{delete_all}

builtin-Forbidden_example :
    (rejected (evaluate_builtin delete_where (new_statement (some delete_all))) ≡ true)
    ↔ Forbidden delete_where (some delete_all)
builtin-Forbidden_example = builtin-Forbidden (new_statement (some delete_all)) delete_where

valid_rule_id_iff_example :
    (valid_rule_id (ascii "team.no-truncate") ≡ true) ↔ IsRuleId (ascii "team.no-truncate")
valid_rule_id_iff_example = valid_rule_id_iff (ascii "team.no-truncate")
