-- ===== src/Parser/Traversal/Preorder.antt =====
-- The loops of traversal.go against the preorder of the statements below a statement.
use postgres_sqlguard.Common.{
  ℕ, zero, suc, ◌≤◌, ◌≡◌, refl, sym, ◌∙◌, ap, List, [], ◌∷◌, ◌++◌, Option, none, some, ascii, foldl,
  concat_map, concat_map-congruence, concat_map-concat_map, foldl-concat_map, append-nil,
  append_assoc, arith, Option-cases, inl, inr,
}
use postgres_sqlguard.Parser.Node.{Node, Value, as_node, size}
use postgres_sqlguard.Parser.Result.{Result}
use postgres_sqlguard.Parser.Traversal.{
  node_field, append_cte, append_statement_from, append_statement, statement_sequence,
}
use postgres_sqlguard.Parser.Traversal.Below.{
  cte_values, statement_of, cte_statement, child_statements, size_pos, size-lt_child_statements,
}

-- A statement with all below it, each before what it declares, with fuel for the depth.
pub preorder_from : ℕ → Node → List Node
preorder_from zero n = []
preorder_from (suc fuel) n = n ∷ concat_map (preorder_from fuel) (child_statements n)

-- Once the fuel covers the tree, more of it changes nothing.
pub preorder_from-enough :
    (f g : ℕ) (n : Node) → size n ≤ f → size n ≤ g → preorder_from f n ≡ preorder_from g n
unfolding preorder_from
preorder_from-enough zero g n p q = absurd (omega (arith, size_pos n))
preorder_from-enough (suc f) zero n p q = absurd (omega (arith, size_pos n))
preorder_from-enough (suc f) (suc g) n p q = ap (◌∷◌ n) (
    concat_map-congruence (preorder_from f) (preorder_from g) (child_statements n) (λ m at.
      let smaller = size-lt_child_statements n m at in
      preorder_from-enough f g m (omega arith) (omega arith)))

append_statement_from-none :
    (fuel : ℕ) (sequence : List Node) → append_statement_from fuel sequence none ≡ sequence
unfolding append_statement_from
append_statement_from-none zero sequence = refl
append_statement_from-none (suc fuel) sequence = refl

-- The loop over the declarations, with the early returns gone.
append_statement_from-suc :
    (fuel : ℕ) (sequence : List Node) (n : Node)
    → append_statement_from (suc fuel) sequence (some n)
      ≡ foldl (append_cte (append_statement_from fuel)) (sequence ++ n ∷ []) (cte_values n)
unfolding append_statement_from cte_values
append_statement_from-suc fuel sequence n = ground arith

module _ (fuel : ℕ)
    (ih : (sequence : List Node) (m : Node)
      → append_statement_from fuel sequence (some m) ≡ sequence ++ preorder_from fuel m) where
  append-statement_of :
      (sequence : List Node) (q : Option Node)
      → append_statement_from fuel sequence q
        ≡ sequence ++ concat_map (preorder_from fuel) (statement_of q)
  unfolding statement_of concat_map
  append-statement_of sequence none = rw (append_statement_from-none, append-nil)
  append-statement_of sequence (some m) = rw (ih, append-nil)

  -- One CTE declaration adds the statement that it bears, with all below it.
  append_cte-preorder :
      (sequence : List Node) (v : Value)
      → append_cte (append_statement_from fuel) sequence v
        ≡ sequence ++ concat_map (preorder_from fuel) (cte_statement v)
  unfolding append_cte cte_statement concat_map
  append_cte-preorder sequence v = elim (Option-cases (as_node v)) [
    | inl e ↦ rw (e, append_cte) (sym (append-nil sequence))
    | inr (cte, e) ↦
        rw (e, append_cte) (append-statement_of sequence (node_field cte (ascii "ctequery")))
  ]

-- `appendStatement` appends the preorder.
append_statement_from-preorder :
    (fuel : ℕ) (sequence : List Node) (n : Node)
    → append_statement_from fuel sequence (some n) ≡ sequence ++ preorder_from fuel n
append_statement_from-preorder zero sequence n =
    unfold append_statement_from preorder_from in rw append-nil
append_statement_from-preorder (suc fuel) sequence n =
    append_statement_from-suc fuel sequence n
    ∙ foldl-concat_map (append_cte (append_statement_from fuel))
        (λ v. concat_map (preorder_from fuel) (cte_statement v))
        (append_cte-preorder fuel (append_statement_from-preorder fuel)) (sequence ++ n ∷ [])
        (cte_values n)
    ∙ unfold preorder_from child_statements in rw (concat_map-concat_map, append_assoc) refl

-- A statement and all the statements below it: itself first, then depth first what its CTE
-- declarations bear, in declaration order.
unfoldable pub preorder : Node → List Node
unfolding preorder_from
preorder n = preorder_from (size n) n

pub preorder_lem : (n : Node) → preorder n ≡ n ∷ concat_map preorder (child_statements n)
unfolding preorder preorder_from
preorder_lem n =
    preorder_from-enough (size n) (suc (size n)) n (omega arith) (omega arith)
    ∙ ap (◌∷◌ n) (
        concat_map-congruence (preorder_from (size n)) preorder (child_statements n) (λ m at.
          let smaller = size-lt_child_statements n m at in
          preorder_from-enough (size n) (size m) m (omega arith) (omega arith)))

pub append_statement-preorder :
    (sequence : List Node) (n : Node) → append_statement sequence (some n) ≡ sequence ++ preorder n
unfolding append_statement preorder
append_statement-preorder sequence n = append_statement_from-preorder (size n) sequence n

-- Appending a statement appends it and then, for each of its CTE declarations in order, all that
-- appending the declared statement would append: the equation of the source, with no fuel.
pub append_statement-unfold :
    (sequence : List Node) (n : Node)
    → append_statement sequence (some n)
      ≡ sequence ++ n ∷ concat_map (λ m. append_statement [] (some m)) (child_statements n)
append_statement-unfold sequence n =
    append_statement-preorder sequence n
    ∙ ap (◌++◌ sequence) (
        preorder_lem n
        ∙ ap (◌∷◌ n) (
            concat_map-congruence preorder (λ m. append_statement [] (some m)) (child_statements n)
              (λ m at. sym (append_statement-preorder [] m))))

abbrev pub preorder_of : Option Node → List Node
preorder_of none = []
preorder_of (some n) = preorder n

append_statement-preorder_of :
    (sequence : List Node) (o : Option Node)
    → append_statement sequence o ≡ sequence ++ preorder_of o
append_statement-preorder_of sequence none = unfold append_statement in sym (append-nil sequence)
append_statement-preorder_of sequence (some n) = append_statement-preorder sequence n

-- The sequence of a result is the preorders of its top-level statements, in input order.
pub statement_sequence-preorder :
    (r : Result) → statement_sequence (some r) ≡ concat_map preorder_of r.statements
unfolding statement_sequence
statement_sequence-preorder r =
    foldl-concat_map append_statement preorder_of append_statement-preorder_of [] r.statements
