-- ===== src/Parser/Traversal.antt =====
-- internal/parser/traversal.go: top-level statements and their statement-bearing CTEs.
pub mod Below
pub mod Preorder
pub mod Reach
use postgres_sqlguard.Common.{
  ℕ, zero, suc, List, [], ◌∷◌, ◌++◌, Option, none, some, GoString, ascii, foldl,
}
use postgres_sqlguard.Parser.Node.{Node, Value, get_field, as_node, as_list, size}
use postgres_sqlguard.Parser.Result.{Result}

-- `nodeField`
unfoldable pub node_field : Option Node → GoString → Option Node
node_field n name = elim (get_field n name) [
  | none ↦ none
  | some value ↦ elim (as_node value) [ none ↦ none | some child ↦ child ]
]

-- The body of the loop over the CTE declarations, over the recursive call.
unfoldable pub append_cte : (List Node → Option Node → List Node) → List Node → Value → List Node
append_cte recur sequence cte_value = elim (as_node cte_value) [
  | none ↦ sequence
  | some cte ↦ recur sequence (node_field cte (ascii "ctequery"))
]

-- `appendStatement` with fuel for the depth of the nesting.
unfoldable pub append_statement_from : ℕ → List Node → Option Node → List Node
unfolding node_field append_cte
append_statement_from zero sequence statement = sequence
append_statement_from (suc fuel) sequence none = sequence
append_statement_from (suc fuel) sequence (some statement) =
    let grown = sequence ++ statement ∷ [] in
    elim (node_field (some statement) (ascii "with_clause")) [
      | none ↦ grown
      | some with_clause ↦ elim (get_field (some with_clause) (ascii "ctes")) [
        | none ↦ grown
        | some ctes ↦ elim (as_list ctes) [
          | none ↦ grown
          | some cte_values ↦ foldl (append_cte (append_statement_from fuel)) grown cte_values
        ]
      ]
    ]

-- Nesting is never deeper than the tree is large.
abbrev pub fuel_for : Option Node → ℕ
fuel_for none = 0
fuel_for (some n) = size n

-- `appendStatement`
unfoldable pub append_statement : List Node → Option Node → List Node
unfolding append_statement_from
append_statement sequence statement = append_statement_from (fuel_for statement) sequence statement

-- `StatementSequence`
unfoldable pub statement_sequence : Option Result → List Node
unfolding append_statement
statement_sequence none = []
statement_sequence (some r) = foldl append_statement [] r.statements
