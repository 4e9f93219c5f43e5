-- ===== src/Tests/Parsing.antt =====
-- internal/parser: tests and witnesses.
use postgres_sqlguard.Common.{◌≡◌, ◌↔◌, refl, [], ◌∷◌, concat_map, none, some, ascii, str_eq, In}
use postgres_sqlguard.Parser.Node.{
  Node, size, to_list, from_list, get_field, as_node, as_list, node, end, node_value,
}
use postgres_sqlguard.Parser.Result.{Result}
use postgres_sqlguard.Parser.Convert.{
  parse, parsed, has_nul, convert_statements, convert_value, convert_pg_node,
}
use postgres_sqlguard.Parser.Convert.Outcomes.{Outcomes, parse-Outcomes}
use postgres_sqlguard.Parser.Traversal.{statement_sequence, append_statement}
use postgres_sqlguard.Parser.Traversal.Below.{child_statements}
use postgres_sqlguard.Parser.Traversal.Preorder.{
  preorder_of, append_statement-unfold, statement_sequence-preorder,
}
use postgres_sqlguard.Parser.Traversal.Reach.{Reaches, statement_sequence-Reaches}
use postgres_sqlguard.Tests.Messages.{Slot}
use postgres_sqlguard.Tests.Samples.{backend, good_text, update_with, delete_all}

parse_good : parse backend good_text ≡ parsed (record { statements = some update_with ∷ [] })
unfolding parse has_nul ascii str_eq convert_statements size convert_value to_list from_list
    convert_pg_node
parse_good = refl

abbrev two_statements : Result
two_statements = record { statements = some update_with ∷ none ∷ [] }

sequence_good : statement_sequence (some two_statements) ≡ update_with ∷ delete_all ∷ []
unfolding statement_sequence size get_field str_eq ascii as_node as_list
sequence_good = refl

statement_sequence-Reaches_example :
    In delete_all (statement_sequence (some two_statements))
    ↔ ((n : Node) × In (some n) two_statements.statements × Reaches n delete_all)
statement_sequence-Reaches_example = statement_sequence-Reaches two_statements delete_all

statement_sequence-preorder_example :
    statement_sequence (some two_statements) ≡ concat_map preorder_of two_statements.statements
statement_sequence-preorder_example = statement_sequence-preorder two_statements

append_statement-unfold_example :
    append_statement [] (some update_with)
    ≡ update_with ∷ concat_map (λ m. append_statement [] (some m)) (child_statements update_with)
append_statement-unfold_example = append_statement-unfold [] update_with

parse-Outcomes_example : Outcomes backend good_text
parse-Outcomes_example = parse-Outcomes backend good_text

-- The field of `delete_all`.
abbrev relation : Slot
relation = record {
  name = ascii "relation";
  place = 0;
  shape = node_value (node (ascii "RangeVar") end);
}
