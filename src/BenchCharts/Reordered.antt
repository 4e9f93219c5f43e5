-- ===== src/BenchCharts/Reordered.antt =====
-- Lists of cases of internal/testutil/cmd/benchcharts/main.go in another order.
use postgres_sqlguard.Common.{◌≢◌, refl, sym, ◌∙◌, subst, inl, inr, List, In, here, there}
use mathlib.Core.List.{Permᴰ}
use postgres_sqlguard.BenchCharts.Dataset.{ComplexityCase}
use postgres_sqlguard.BenchCharts.Valid.{Distinct, In-cons}
use postgres_sqlguard.BenchCharts.Order.{IsOrder}

module _ {ℓ} {A : Type ℓ} where
  pub Permᴰ-In : {x : A} {l l' : List A} → Permᴰ l l' → In x l' → In x l
  Permᴰ-In Permᴰ.nil at = at
  Permᴰ-In (Permᴰ.cons e p) (here f) = here (f ∙ sym e)
  Permᴰ-In (Permᴰ.cons e p) (there at) = there (Permᴰ-In p at)
  Permᴰ-In (Permᴰ.swap e f) (here g) = there (here (g ∙ sym f))
  Permᴰ-In (Permᴰ.swap e f) (there (here g)) = here (g ∙ sym e)
  Permᴰ-In (Permᴰ.swap e f) (there (there at)) = there (there at)
  Permᴰ-In (Permᴰ.trans p q) at = Permᴰ-In p (Permᴰ-In q at)

  pub Permᴰ-In_back : {x : A} {l l' : List A} → Permᴰ l l' → In x l → In x l'
  Permᴰ-In_back Permᴰ.nil at = at
  Permᴰ-In_back (Permᴰ.cons e p) (here f) = here (f ∙ e)
  Permᴰ-In_back (Permᴰ.cons e p) (there at) = there (Permᴰ-In_back p at)
  Permᴰ-In_back (Permᴰ.swap e f) (here g) = there (here (g ∙ e))
  Permᴰ-In_back (Permᴰ.swap e f) (there (here g)) = here (g ∙ f)
  Permᴰ-In_back (Permᴰ.swap e f) (there (there at)) = there (there at)
  Permᴰ-In_back (Permᴰ.trans p q) at = Permᴰ-In_back q (Permᴰ-In_back p at)

-- Orders and identifiers that differ.
abbrev Differ : ComplexityCase → ComplexityCase → Type 0
Differ c d = (c.order ≢ d.order) × (c.id ≢ d.id)

pub Permᴰ-Distinct : {l l' : List ComplexityCase} → Permᴰ l l' → Distinct l → Distinct l'
Permᴰ-Distinct Permᴰ.nil h = h
Permᴰ-Distinct (Permᴰ.cons e p) h =
    ((λ d at. subst (λ c. Differ c d) e (h.0 d (Permᴰ-In p at))), Permᴰ-Distinct p h.1)
Permᴰ-Distinct (Permᴰ.swap {a} {b} {a'} {b'} e f) h = (
  λ d at. elim (In-cons at) [
    | inl g ↦
        let (order, id) = h.0 b (here refl) in
        subst (λ x. Differ x d) f
          (subst (λ x. Differ b x) (e ∙ sym g) ((λ q. order (sym q)), λ q. id (sym q)))
    | inr at' ↦ subst (λ x. Differ x d) f (h.1.0 d at')
  ],
  ((λ d at. subst (λ x. Differ x d) e (h.0 d (there at))), h.1.1),
)
Permᴰ-Distinct (Permᴰ.trans p q) h = Permᴰ-Distinct q (Permᴰ-Distinct p h)

abbrev pub AllOrders : List ComplexityCase → Type 0
AllOrders l = (c : ComplexityCase) → In c l → IsOrder c.order
