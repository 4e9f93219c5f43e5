-- ===== src/Statement/Children.antt =====
-- `Node.Children` of statement.go against the fields of the tree.
use mathlib.Core.Option.{some-injective}
use postgres_sqlguard.Common.{
  ◌≡◌, ◌↔◌, refl, sym, ap, ◌∙◌, subst, List, [], ◌∷◌, Option, none, some, GoString, Option-cases,
  inl, inr, In, here, there,
}
use postgres_sqlguard.Parser.Node.{Node, Value, list, Values, to_list, as_node, as_list}
use postgres_sqlguard.Statement.{value, children, keep_nodes}
use postgres_sqlguard.Statement.Fields.{
  FieldOf, value-FieldOf, FieldOf-value, IsNode, IsNode-as_node, as_node-IsNode,
}

keep_nodes-skip :
    (x : Value) (xs : List Value) → as_node x ≡ none → keep_nodes (x ∷ xs) ≡ keep_nodes xs
unfolding keep_nodes
keep_nodes-skip x xs e = rw (e, keep_nodes) refl

keep_nodes-keep :
    (x : Value) (xs : List Value) (c : Option Node)
    → as_node x ≡ some c
    → keep_nodes (x ∷ xs) ≡ c ∷ keep_nodes xs
unfolding keep_nodes
keep_nodes-keep x xs c e = rw (e, keep_nodes) refl

not-IsNode : (xs : List Value) → keep_nodes xs ≡ [] → (x : Value) → In x xs → ¬ (IsNode x)
not-IsNode [] h x at is_node = elim at [ ]
not-IsNode (y ∷ xs) h x (here same) is_node = elim (Option-cases (as_node y)) [
  | inl e ↦ IsNode-as_node x is_node (ap as_node same ∙ e)
  | inr (c, e) ↦ cc (keep_nodes-keep y xs c e)
]
not-IsNode (y ∷ xs) h x (there at) is_node = elim (Option-cases (as_node y)) [
  | inl e ↦ not-IsNode xs (sym (keep_nodes-skip y xs e) ∙ h) x at is_node
  | inr (c, e) ↦ cc (keep_nodes-keep y xs c e)
]

keep_nodes-eq-nil : (xs : List Value) → ((x : Value) → In x xs → ¬ (IsNode x)) → keep_nodes xs ≡ []
unfolding keep_nodes
keep_nodes-eq-nil [] h = refl
keep_nodes-eq-nil (x ∷ xs) h = elim (Option-cases (as_node x)) [
  | inl e ↦ keep_nodes-skip x xs e ∙ keep_nodes-eq-nil xs (λ y at. h y (there at))
  | inr (c, e) ↦ absurd (h x (here refl) (as_node-IsNode x c e))
]

as_list-list :
    (v : Value) (vs : List Value)
    → as_list v ≡ some vs
    → (ws : Values) × (v ≡ list ws) × (to_list ws ≡ vs)
unfolding as_list
as_list-list (list ws) vs e = (ws, refl, some-injective (to_list ws) vs e)
as_list-list _ vs e = absurd (cc)

as_list_self : (ws : Values) → as_list (list ws) ≡ some (to_list ws)
unfolding as_list
as_list_self ws = refl

-- A node, or a nil pointer of one, stands in the list of the first field of that name.
pub record HoldsNode (p : Option Node) (name : GoString) : Type 0 where
  pub values : Values
  pub item : Value
  pub held : FieldOf p name (list values)
  pub listed : In item (to_list values)
  pub is_node : IsNode item

module _ (p : Option Node) (name : GoString) where
  children-absent : value p name ≡ none → children p name ≡ []
  unfolding children
  children-absent e = rw (e, children)

  children-scalar : (v : Value) → value p name ≡ some v → as_list v ≡ none → children p name ≡ []
  unfolding children
  children-scalar v e f = rw (e, f, children)

  children-list :
      (v : Value) (vs : List Value)
      → value p name ≡ some v
      → as_list v ≡ some vs
      → children p name ≡ keep_nodes vs
  unfolding children
  children-list v vs e f = rw (e, f, children)

  -- `Children` is empty exactly where no node, and no nil pointer of one, stands in a list in the
  -- first field of that name.
  pub children-eq-nil_iff : (children p name ≡ []) ↔ (¬ HoldsNode p name)
  children-eq-nil_iff = (forth, back)
    where
      forth : children p name ≡ [] → ¬ HoldsNode p name
      forth e h =
          let found = FieldOf-value p name (list h.values) h.held in
          not-IsNode (to_list h.values)
            (sym (children-list (list h.values) (to_list h.values) found (as_list_self h.values))
              ∙ e)
            h.item h.listed h.is_node

      back : ¬ HoldsNode p name → children p name ≡ []
      back absent = elim (Option-cases (value p name)) [
        | inl e ↦ children-absent e
        | inr (v, e) ↦ elim (Option-cases (as_list v)) [
          | inl f ↦ children-scalar v e f
          | inr (vs, f) ↦
              let (ws, is_list, same) = as_list-list v vs f in
              let held : FieldOf p name (list ws) =
                subst (FieldOf p name) is_list (value-FieldOf p name v e) in
              children-list v vs e f
              ∙ keep_nodes-eq-nil vs (λ x at n. absent (record {
                values = ws;
                item = x;
                held = held;
                listed = subst (In x) (sym same) at;
                is_node = n;
              }))
        ]
      ]
