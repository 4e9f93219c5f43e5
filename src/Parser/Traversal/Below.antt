-- ===== src/Parser/Traversal/Below.antt =====
-- The statements directly below a statement, read off the tree, and that they are smaller.
use postgres_sqlguard.Common.{
  ◌≤◌, ◌<◌, ◌+◌, ◌≡◌, refl, List, [], ◌∷◌, Option, none, some, GoString, ascii, concat_map, arith,
  In, here, there, In-concat_map_inv, Option-cases, inl, inr,
}
use postgres_sqlguard.Parser.Node.{
  Node, node, Value, get_field, find_field, Fields, end, field, Values, nil, cons, to_list, as_node,
  as_list, size, size_fields, size_value, size_values, node_value, list,
}
use postgres_sqlguard.Parser.Traversal.{node_field}

size_fields-field :
    (n : GoString) (v : Value) (fs : Fields)
    → size_fields (field n v fs) ≡ size_value v + size_fields fs
unfolding size
size_fields-field n v fs = refl

size_value-le_find_field :
    (name : GoString) (fs : Fields) (v : Value)
    → find_field name fs ≡ some v
    → size_value v ≤ size_fields fs
unfolding find_field
size_value-le_find_field name end v h = cc
size_value-le_find_field name (field n w fs) v h =
    ground (arith, size_fields-field n w fs, size_value-le_find_field name fs v)

size_value-lt_get_field :
    (n : Node) (name : GoString) (v : Value)
    → get_field (some n) name ≡ some v
    → size_value v < size n
unfolding get_field size
size_value-lt_get_field (node k fs) name v h = ground (arith, size_value-le_find_field name fs v h)

pub size_pos : (n : Node) → 0 < size n
unfolding size
size_pos (node k fs) = omega arith

size-le_as_node : (v : Value) (n : Node) → as_node v ≡ some (some n) → size n ≤ size_value v
unfolding as_node size
size-le_as_node (node_value m) n h = ground arith
size-le_as_node _ n h = cc

size-lt_node_field :
    (n : Node) (name : GoString) (m : Node) → node_field (some n) name ≡ some m → size m < size n
unfolding node_field
size-lt_node_field n name m h = elim (Option-cases (get_field (some n) name)) [
  | inl e ↦ ground arith
  | inr (v, e) ↦
      omega (arith, size_value-lt_get_field n name v e, size-le_as_node v m (ground arith))
]

size_value-le_In : (v : Value) (vs : Values) → In v (to_list vs) → size_value v ≤ size_values vs
unfolding to_list size
size_value-le_In v nil m = elim m [ ]
size_value-le_In v (cons w vs) (here e) = rw e (omega arith)
size_value-le_In v (cons w vs) (there m) = omega (arith, size_value-le_In v vs m)

unfoldable pub list_items : Option Value → List Value
list_items none = []
list_items (some v) = elim (as_list v) [ none ↦ [] | some vs ↦ vs ]

unfoldable pub declarations : Option Node → List Value
declarations none = []
declarations (some with_clause) = list_items (get_field (some with_clause) (ascii "ctes"))

-- The values in the `ctes` list of a statement's WITH clause.
unfoldable pub cte_values : Node → List Value
unfolding list_items declarations
cte_values n = declarations (node_field (some n) (ascii "with_clause"))

unfoldable pub statement_of : Option Node → List Node
statement_of none = []
statement_of (some m) = m ∷ []

unfoldable pub declared : Option (Option Node) → List Node
declared none = []
declared (some cte) = statement_of (node_field cte (ascii "ctequery"))

-- The statement that a CTE declaration bears, if any.
unfoldable pub cte_statement : Value → List Node
unfolding statement_of declared
cte_statement v = declared (as_node v)

-- The statements directly below a statement, in declaration order.
unfoldable pub child_statements : Node → List Node
child_statements n = concat_map cte_statement (cte_values n)

size-le_list_items : (v c : Value) → In v (list_items (some c)) → size_value v ≤ size_value c
unfolding list_items as_list size
size-le_list_items v (list vs) m = size_value-le_In v vs m
size-le_list_items v _ m = elim m [ ]

size-lt_list_items :
    (w : Node) (name : GoString) (o : Option Value) (v : Value)
    → get_field (some w) name ≡ o
    → In v (list_items o)
    → size_value v < size w
unfolding list_items
size-lt_list_items w name none v e m = elim m [ ]
size-lt_list_items w name (some c) v e m =
    omega (arith, size_value-lt_get_field w name c e, size-le_list_items v c m)

size-lt_declarations :
    (n : Node) (o : Option Node) (v : Value)
    → node_field (some n) (ascii "with_clause") ≡ o
    → In v (declarations o)
    → size_value v < size n
unfolding declarations
size-lt_declarations n none v e m = elim m [ ]
size-lt_declarations n (some w) v e m =
    omega (arith, size-lt_node_field n _ w e, size-lt_list_items w _ _ v refl m)

size-lt_cte_values : (n : Node) (v : Value) → In v (cte_values n) → size_value v < size n
unfolding cte_values
size-lt_cte_values n v m = size-lt_declarations n _ v refl m

size-lt_statement_of :
    (cte : Node) (name : GoString) (o : Option Node) (m : Node)
    → node_field (some cte) name ≡ o
    → In m (statement_of o)
    → size m < size cte
unfolding statement_of
size-lt_statement_of cte name none m e h = elim h [ ]
size-lt_statement_of cte name (some q) m e (here same) = rw same (size-lt_node_field cte name q e)
size-lt_statement_of cte name (some q) m e (there h) = elim h [ ]

size-le_declared :
    (v : Value) (o : Option (Option Node)) (m : Node)
    → as_node v ≡ o
    → In m (declared o)
    → size m ≤ size_value v
unfolding declared statement_of node_field get_field
size-le_declared v none m e h = elim h [ ]
size-le_declared v (some none) m e h = elim h [ ]
size-le_declared v (some (some cte)) m e h =
    omega (arith, size-lt_statement_of cte _ _ m refl h, size-le_as_node v cte e)

-- A statement below another is smaller.
pub size-lt_child_statements : (n m : Node) → In m (child_statements n) → size m < size n
unfolding child_statements cte_statement
size-lt_child_statements n m h =
    let (v, at, found) = In-concat_map_inv cte_statement (cte_values n) h in
    omega (arith, size-lt_cte_values n v at, size-le_declared v _ m refl found)
