-- ===== src/Statement/Walk/Visits.antt =====
-- What `Walk` of statement.go visits, for any visitor and for one that never stops.
use postgres_sqlguard.Common.{
  ◌≡◌, refl, sym, ◌∙◌, ap, true, List, [], ◌∷◌, ◌++◌, Option, none, some, append-nil, append_assoc,
  map,
}
use postgres_sqlguard.Parser.Node.{Node}
use postgres_sqlguard.Statement.Walk.{Visitor, walk, preorder, offer}
use postgres_sqlguard.Statement.Walk.Offer.{walk_node-offer}

-- `Walk` offers the nodes of the tree to the visitor in structural preorder, each at most once,
-- until the visitor declines one or the walk meets a nil pointer; its final state is the state
-- after that.
pub walk-offer {ℓ} :
    {S : Type ℓ} (visit : Visitor S) (n : Node) (s : S)
    → walk (some n) (some visit) s ≡ (offer visit (preorder n) s).1
unfolding walk
walk-offer visit n s = ap (λ p. p.1) (walk_node-offer visit n s)

-- Notes every node and goes on.
abbrev pub collect : Visitor (List (Option Node))
collect n seen = (true, seen ++ n ∷ [])

-- The nodes before the first nil pointer.
unfoldable pub before_nil : List (Option Node) → List (Option Node)
before_nil [] = []
before_nil (none ∷ ps) = []
before_nil (some n ∷ ps) = some n ∷ before_nil ps

offer-collect : (ps seen : List (Option Node)) → (offer collect ps seen).1 ≡ seen ++ before_nil ps
unfolding offer before_nil
offer-collect [] seen = sym (append-nil seen)
offer-collect (none ∷ ps) seen = sym (append-nil seen)
offer-collect (some n ∷ ps) seen =
    offer-collect ps (seen ++ some n ∷ []) ∙ append_assoc seen (some n ∷ []) (before_nil ps)

-- A visitor that never stops sees, in order, exactly the nodes of the preorder that stand before
-- its first nil pointer.
pub walk-collect :
    (n : Node) (seen : List (Option Node))
    → walk (some n) (some collect) seen ≡ seen ++ before_nil (preorder n)
walk-collect n seen = walk-offer collect n seen ∙ offer-collect (preorder n) seen

before_nil-append :
    (ns : List Node) (ps : List (Option Node))
    → before_nil (map some ns ++ ps) ≡ map some ns ++ before_nil ps
unfolding before_nil
before_nil-append [] ps = refl
before_nil-append (n ∷ ns) ps = ap (◌∷◌ (some n)) (before_nil-append ns ps)

-- Where a nil pointer stands behind the nodes `ns` in the preorder, a visitor that never stops
-- sees `ns` and nothing of what stands behind the nil pointer.
pub walk-collect_nil :
    (n : Node) (ns : List Node) (after : List (Option Node))
    → preorder n ≡ map some ns ++ none ∷ after
    → walk (some n) (some collect) [] ≡ map some ns
walk-collect_nil n ns after e =
    walk-collect n []
    ∙ ap before_nil e
    ∙ before_nil-append ns (none ∷ after)
    ∙ unfold before_nil in append-nil (map some ns)
