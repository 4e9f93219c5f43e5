-- ===== src/Statement/Walk/Offer.antt =====
-- `walkNode` offers the pointers of the structural preorder, up to the first refusal or nil.
use postgres_sqlguard.Common.{
  ◌≡◌, refl, sym, ◌∙◌, ap, Bool, true, false, List, [], ◌∷◌, ◌++◌, Option, none, some, GoString,
}
use postgres_sqlguard.Parser.Node.{
  Node, node, Fields, end, field, Value, node_value, nil_node, list, Values, nil, cons, Kind,
}
use postgres_sqlguard.Statement.Walk.{
  Visitor, and_then, walk_node, walk_fields, walk_value, walk_items, walk_item, preorder,
  preorder_fields, preorder_value, preorder_items, preorder_item, offer,
}

module _ {ℓ} {S : Type ℓ} where
  and_then-congruence :
      (p : Bool × S) (f g : S → Bool × S) → ((s : S) → f s ≡ g s) → and_then p f ≡ and_then p g
  and_then-congruence (true, s) f g h = h s
  and_then-congruence (false, s) f g h = refl

  and_then_assoc :
      (p : Bool × S) (f g : S → Bool × S)
      → and_then p (λ s. and_then (f s) g) ≡ and_then (and_then p f) g
  and_then_assoc (true, s) f g = refl
  and_then_assoc (false, s) f g = refl

module _ {ℓ} {S : Type ℓ} (visit : Visitor S) where
  offer-append :
      (ps qs : List (Option Node)) (s : S)
      → offer visit (ps ++ qs) s ≡ and_then (offer visit ps s) (offer visit qs)
  unfolding offer
  offer-append [] qs s = refl
  offer-append (none ∷ ps) qs s = refl
  offer-append (some n ∷ ps) qs s =
      and_then-congruence (visit (some n) s) _ _ (offer-append ps qs)
      ∙ and_then_assoc (visit (some n) s) (offer visit ps) (offer visit qs)

  -- The equations of the walk.
  walk_node-node :
      (k : Kind) (fs : Fields) (s : S)
      → walk_node visit (node k fs) s ≡ and_then (visit (some (node k fs)) s) (walk_fields visit fs)
  unfolding walk_node
  walk_node-node k fs s = refl

  walk_fields-field :
      (n : GoString) (v : Value) (fs : Fields) (s : S)
      → walk_fields visit (field n v fs) s ≡ and_then (walk_value visit v s) (walk_fields visit fs)
  unfolding walk_node
  walk_fields-field n v fs s = refl

  walk_items-cons :
      (v : Value) (vs : Values) (s : S)
      → walk_items visit (cons v vs) s ≡ and_then (walk_item visit v s) (walk_items visit vs)
  unfolding walk_node
  walk_items-cons v vs s = refl

  offer-preorder_node :
      (k : Kind) (fs : Fields) (s : S)
      → offer visit (preorder (node k fs)) s
        ≡ and_then (visit (some (node k fs)) s) (offer visit (preorder_fields fs))
  unfolding preorder offer
  offer-preorder_node k fs s = refl

  offer-preorder_field :
      (n : GoString) (v : Value) (fs : Fields) (s : S)
      → offer visit (preorder_fields (field n v fs)) s
        ≡ and_then (offer visit (preorder_value v) s) (offer visit (preorder_fields fs))
  unfolding preorder
  offer-preorder_field n v fs s = offer-append (preorder_value v) (preorder_fields fs) s

  offer-preorder_cons :
      (v : Value) (vs : Values) (s : S)
      → offer visit (preorder_items (cons v vs)) s
        ≡ and_then (offer visit (preorder_item v) s) (offer visit (preorder_items vs))
  unfolding preorder
  offer-preorder_cons v vs s = offer-append (preorder_item v) (preorder_items vs) s

  -- The two sides of a step agree if their parts do.
  join :
      {a b c d : Bool × S} (f g : S → Bool × S)
      → a ≡ and_then c f
      → b ≡ and_then d g
      → c ≡ d
      → ((s : S) → f s ≡ g s)
      → a ≡ b
  join {c = c} {d} f g p q e h = p ∙ and_then-congruence c f g h ∙ ap (λ x. and_then x g) e ∙ sym q

  mutual
    unfolding walk_node preorder offer

    pub walk_node-offer : (n : Node) (s : S) → walk_node visit n s ≡ offer visit (preorder n) s
    walk_node-offer (node k fs) s =
        join (walk_fields visit fs) (offer visit (preorder_fields fs)) (walk_node-node k fs s)
          (offer-preorder_node k fs s) refl (walk_fields-offer fs)

    walk_fields-offer :
        (fs : Fields) (s : S) → walk_fields visit fs s ≡ offer visit (preorder_fields fs) s
    walk_fields-offer end s = refl
    walk_fields-offer (field n v fs) s =
        join (walk_fields visit fs) (offer visit (preorder_fields fs)) (walk_fields-field n v fs s)
          (offer-preorder_field n v fs s) (walk_value-offer v s) (walk_fields-offer fs)

    walk_value-offer : (v : Value) (s : S) → walk_value visit v s ≡ offer visit (preorder_value v) s
    walk_value-offer (node_value n) s = walk_node-offer n s
    walk_value-offer nil_node s = refl
    walk_value-offer (list vs) s = walk_items-offer vs s
    walk_value-offer _ s = refl

    walk_items-offer :
        (vs : Values) (s : S) → walk_items visit vs s ≡ offer visit (preorder_items vs) s
    walk_items-offer nil s = refl
    walk_items-offer (cons v vs) s =
        join (walk_items visit vs) (offer visit (preorder_items vs)) (walk_items-cons v vs s)
          (offer-preorder_cons v vs s) (walk_item-offer v s) (walk_items-offer vs)

    walk_item-offer : (v : Value) (s : S) → walk_item visit v s ≡ offer visit (preorder_item v) s
    walk_item-offer (node_value n) s = walk_node-offer n s
    walk_item-offer nil_node s = refl
    walk_item-offer _ s = refl
