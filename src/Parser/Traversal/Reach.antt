-- ===== src/Parser/Traversal/Reach.antt =====
-- Which statements `StatementSequence` returns: those reached through WITH clauses.
use postgres_sqlguard.Common.{
  ℕ, zero, suc, ◌<◌, ◌≡◌, refl, sym, subst, List, ◌∷◌, Option, none, some, ◌↔◌, ◌⊎◌, inl, inr, ap,
  ascii, concat_map, In, here, there, In-concat_map, In-concat_map_inv, arith,
}
use postgres_sqlguard.Parser.Node.{
  Node, Value, node_value, list, Values, to_list, get_field, as_node, as_list, size,
}
use postgres_sqlguard.Parser.Result.{Result}
use postgres_sqlguard.Parser.Traversal.{node_field, statement_sequence}
use postgres_sqlguard.Parser.Traversal.Below.{
  list_items, declarations, cte_values, statement_of, declared, cte_statement, child_statements,
  size-lt_child_statements,
}
use postgres_sqlguard.Parser.Traversal.Preorder.{
  preorder, preorder_lem, preorder_of, statement_sequence-preorder,
}

-- A CTE declaration in the WITH clause of `n` bears `m`.
pub record Declares (n m : Node) : Type 0 where
  pub with_clause : Node
  pub ctes : Values
  pub cte : Node
  pub has_with : node_field (some n) (ascii "with_clause") ≡ some with_clause
  pub has_ctes : get_field (some with_clause) (ascii "ctes") ≡ some (list ctes)
  pub listed : In (node_value cte) (to_list ctes)
  pub bears : node_field (some cte) (ascii "ctequery") ≡ some m

-- Any number of such steps.
pub data Reaches : Node → Node → Type 0 where
  self : {n m : Node} → n ≡ m → Reaches n m
  below : {n m k : Node} → Declares n m → Reaches m k → Reaches n k

child-Declares : (n m : Node) → Declares n m → In m (child_statements n)
unfolding child_statements cte_values cte_statement list_items declarations statement_of declared
    as_list as_node
child-Declares n m d =
    In-concat_map cte_statement
      (let listed : In (node_value d.cte) (cte_values n) = rw (d.has_with, d.has_ctes) d.listed in
        listed)
      (rw d.bears (here refl))

statement_of-eq : (o : Option Node) (m : Node) → In m (statement_of o) → o ≡ some m
unfolding statement_of
statement_of-eq none m h = elim h [ ]
statement_of-eq (some q) m (here e) = ap some (sym e)
statement_of-eq (some q) m (there h) = elim h [ ]

cte_statement-eq :
    (v : Value) (m : Node)
    → In m (cte_statement v)
    → (c : Node) × (v ≡ node_value c) × (node_field (some c) (ascii "ctequery") ≡ some m)
unfolding cte_statement as_node declared statement_of node_field get_field
cte_statement-eq (node_value c) m h = (c, refl, statement_of-eq _ m h)
cte_statement-eq _ m h = elim h [ ]

list_items-eq :
    (o : Option Value) (v : Value)
    → In v (list_items o)
    → (vs : Values) × (o ≡ some (list vs)) × In v (to_list vs)
unfolding list_items as_list
list_items-eq (some (list vs)) v h = (vs, refl, h)
list_items-eq none v h = elim h [ ]
list_items-eq (some _) v h = elim h [ ]

declarations-eq :
    (o : Option Node) (v : Value)
    → In v (declarations o)
    → (w : Node) × (o ≡ some w) × In v (list_items (get_field (some w) (ascii "ctes")))
unfolding declarations
declarations-eq none v h = elim h [ ]
declarations-eq (some w) v h = (w, refl, h)

Declares-child : (n m : Node) → In m (child_statements n) → Declares n m
unfolding child_statements cte_values
Declares-child n m h =
    let (v, listed, found) = In-concat_map_inv cte_statement (cte_values n) h in
    let (c, is_node, bears) = cte_statement-eq v m found in
    let (w, has_with, items) = declarations-eq _ v listed in
    let (vs, has_ctes, at) = list_items-eq _ v items in
    record {
      with_clause = w;
      ctes = vs;
      cte = c;
      has_with = has_with;
      has_ctes = has_ctes;
      listed = subst (λ x. In x (to_list vs)) is_node at;
      bears = bears;
    }

In-cons_cases : {n m : Node} {ms : List Node} → In m (n ∷ ms) → (m ≡ n) ⊎ In m ms
In-cons_cases (here e) = inl e
In-cons_cases (there h) = inr h

-- Induction on a bound for the size of the tree.
Reaches-preorder : (bound : ℕ) (n m : Node) → size n < bound → In m (preorder n) → Reaches n m
Reaches-preorder zero n m p h = absurd (omega arith)
Reaches-preorder (suc bound) n m p h =
    let h' : In m (n ∷ concat_map preorder (child_statements n)) = rw preorder_lem at h in
    elim (In-cons_cases h') [
      | inl e ↦ self (sym e)
      | inr rest ↦
          let (k, child, deep) = In-concat_map_inv preorder (child_statements n) rest in
          let smaller = size-lt_child_statements n k child in
          below (Declares-child n k child) (Reaches-preorder bound k m (omega arith) deep)
    ]

preorder-Reaches : {n m : Node} → Reaches n m → In m (preorder n)
preorder-Reaches {n} (self e) = rw preorder_lem (here (sym e))
preorder-Reaches {n} (below {m = k} d r) =
    rw preorder_lem (there (In-concat_map preorder (child-Declares n k d) (preorder-Reaches r)))

-- The sequence holds exactly the statements that some top-level statement of the result reaches
-- through WITH clauses, at any depth.
pub statement_sequence-Reaches :
    (r : Result) (m : Node)
    → In m (statement_sequence (some r)) ↔ ((n : Node) × In (some n) r.statements × Reaches n m)
statement_sequence-Reaches r m = (forth, back)
  where
    found :
        (o : Option Node)
        → In o r.statements
        → In m (preorder_of o)
        → (n : Node) × In (some n) r.statements × Reaches n m
    found none at h = elim h [ ]
    found (some n) at h = (n, at, Reaches-preorder (suc (size n)) n m (omega arith) h)

    forth : In m (statement_sequence (some r)) → (n : Node) × In (some n) r.statements × Reaches n m
    forth h =
        let (o, at, deep) =
          In-concat_map_inv preorder_of r.statements (rw statement_sequence-preorder at h) in
        found o at deep

    back :
        ((n : Node) × In (some n) r.statements × Reaches n m) → In m (statement_sequence (some r))
    back (n, at, reaches) =
        rw statement_sequence-preorder (In-concat_map preorder_of at (preorder-Reaches reaches))
