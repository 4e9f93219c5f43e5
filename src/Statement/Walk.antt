-- ===== src/Statement/Walk.antt =====
-- `Node.Walk` and `walkNode` of statement.go. The visitor is a callback over a state of its own.
pub mod Offer
pub mod Visits
use postgres_sqlguard.Common.{
  ℕ, ◌≡◌, refl, Bool, true, false, List, [], ◌∷◌, ◌++◌, Option, none, some,
}
use postgres_sqlguard.Parser.Node.{
  Node, node, Fields, end, field, Value, node_value, nil_node, list, Values, nil, cons, invalid,
  bool, int, uint, float, string, bytes, enum,
}

abbrev pub Visitor {ℓ} : Type ℓ → Type ℓ
Visitor S = Option Node → S → Bool × S

-- Goes on only if the step before it returned true.
abbrev pub and_then {ℓ} : {S : Type ℓ} → Bool × S → (S → Bool × S) → Bool × S
and_then (b, s) next = elim b [ true ↦ next s | false ↦ (false, s) ]

module _ {ℓ} {S : Type ℓ} (visit : Visitor S) where
  -- `walkNode`: over the fields in order; a field that holds a list offers its nodes in order.
  unfoldable mutual
    pub walk_node : Node → S → Bool × S
    walk_node (node k fs) s = and_then (visit (some (node k fs)) s) (walk_fields fs)

    pub walk_fields : Fields → S → Bool × S
    walk_fields end s = (true, s)
    walk_fields (field n v fs) s = and_then (walk_value v s) (walk_fields fs)

    -- One round of the loop over the fields. `walkNode(nil)` returns false.
    pub walk_value : Value → S → Bool × S
    walk_value (node_value n) s = walk_node n s
    walk_value nil_node s = (false, s)
    walk_value (list vs) s = walk_items vs s
    walk_value _ s = (true, s)

    pub walk_items : Values → S → Bool × S
    walk_items nil s = (true, s)
    walk_items (cons v vs) s = and_then (walk_item v s) (walk_items vs)

    -- A list in a list is not entered.
    pub walk_item : Value → S → Bool × S
    walk_item (node_value n) s = walk_node n s
    walk_item nil_node s = (false, s)
    walk_item _ s = (true, s)

-- `Node.Walk`; `none` is a nil visitor.
unfoldable pub walk {ℓ} : {S : Type ℓ} → Option Node → Option (Visitor S) → S → S
walk none visit s = s
walk (some n) none s = s
walk (some n) (some visit) s = (walk_node visit n s).1

-- The pointers below a node in structural order, the node first; `none` is a nil pointer.
unfoldable mutual
  pub preorder : Node → List (Option Node)
  preorder (node k fs) = some (node k fs) ∷ preorder_fields fs

  pub preorder_fields : Fields → List (Option Node)
  preorder_fields end = []
  preorder_fields (field n v fs) = preorder_value v ++ preorder_fields fs

  pub preorder_value : Value → List (Option Node)
  preorder_value (node_value n) = preorder n
  preorder_value nil_node = none ∷ []
  preorder_value (list vs) = preorder_items vs
  preorder_value _ = []

  pub preorder_items : Values → List (Option Node)
  preorder_items nil = []
  preorder_items (cons v vs) = preorder_item v ++ preorder_items vs

  pub preorder_item : Value → List (Option Node)
  preorder_item (node_value n) = preorder n
  preorder_item nil_node = none ∷ []
  preorder_item _ = []

-- Offers pointers to a visitor until it declines one or one is nil.
unfoldable pub offer {ℓ} : {S : Type ℓ} → Visitor S → List (Option Node) → S → Bool × S
offer visit [] s = (true, s)
offer visit (none ∷ ps) s = (false, s)
offer visit (some n ∷ ps) s = and_then (visit (some n) s) (offer visit ps)
