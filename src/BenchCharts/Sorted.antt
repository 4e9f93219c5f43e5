-- ===== src/BenchCharts/Sorted.antt =====
-- The sorted cases of internal/testutil/cmd/benchcharts/main.go, for data sets that hold them in
-- different orders.
use postgres_sqlguard.Common.{
  ◌<◌, ◌≡◌, ◌≢◌, refl, sym, ap, ◌∙◌, subst, arith, Bool-cases, inl, inr, ltb, List, [], ◌∷◌, In,
  here, there, ℤ,
}
use mathlib.Core.List.{Permᴰ}
use mathlib.Core.List.Permᴰ
use postgres_sqlguard.BenchCharts.Dataset.{ComplexityCase}
use postgres_sqlguard.BenchCharts.Valid.{Distinct, In-cons}
use postgres_sqlguard.BenchCharts.Order.{
  compare_cases, is_negative, insert_sorted, sort_func, IsOrder, rank, sub_int-order,
}
use postgres_sqlguard.BenchCharts.Reordered.{AllOrders, Permᴰ-In, Permᴰ-Distinct}

-- The test of `insert_sorted`, as a comparison of numbers.
below :
    (c d : ComplexityCase)
    → IsOrder c.order
    → IsOrder d.order
    → is_negative (compare_cases c d) ≡ ltb (rank c.order) (rank d.order)
unfolding compare_cases
below c d p q = ground (arith, sub_int-order c.order d.order p q)

rank-inj : (a b : ℤ) → IsOrder a → IsOrder b → rank a ≡ rank b → a ≡ b
rank-inj a b p q h = ground arith

module _ (a b : ComplexityCase) (p : IsOrder a.order) (q : IsOrder b.order)
    (differ : rank a.order ≢ rank b.order) where
  insert_sorted_comm :
      (l : List ComplexityCase)
      → AllOrders l
      → insert_sorted compare_cases a (insert_sorted compare_cases b l)
        ≡ insert_sorted compare_cases b (insert_sorted compare_cases a l)
  unfolding insert_sorted
  insert_sorted_comm [] h = ground (arith, below a b p q, below b a q p)
  insert_sorted_comm (x ∷ l) h =
      let r = h x (here refl) in
      ground (
        arith,
        below a b p q,
        below b a q p,
        below x a r p,
        below x b r q,
        insert_sorted_comm l (λ c at. h c (there at)),
      )

insert_sorted-In :
    (a : ComplexityCase) (l : List ComplexityCase) {c : ComplexityCase}
    → In c (insert_sorted compare_cases a l)
    → In c (a ∷ l)
unfolding insert_sorted
insert_sorted-In a [] at = at
insert_sorted-In a (b ∷ l) at = elim (Bool-cases (is_negative (compare_cases b a))) [
  | inl lower ↦ elim (In-cons (rw lower at at)) [
    | inl e ↦ there (here e)
    | inr at' ↦ elim (In-cons (insert_sorted-In a l at')) [
      | inl e ↦ here e
      | inr old ↦ there (there old)
    ]
  ]
  | inr higher ↦ rw higher at at
]

pub sort_func-In :
    (l : List ComplexityCase) {c : ComplexityCase} → In c (sort_func compare_cases l) → In c l
unfolding sort_func
sort_func-In [] at = at
sort_func-In (a ∷ l) at = elim (In-cons (insert_sorted-In a (sort_func compare_cases l) at)) [
  | inl e ↦ here e
  | inr old ↦ there (sort_func-In l old)
]

AllOrders-sort_func :
    (l : List ComplexityCase) → AllOrders l → AllOrders (sort_func compare_cases l)
AllOrders-sort_func l h c at = h c (sort_func-In l at)

-- Cases with distinct valid orders come out of the sort in the same order, in whatever order
-- they stand in the list.
pub sort_func-Permᴰ :
    {l l' : List ComplexityCase}
    → Permᴰ l l'
    → AllOrders l
    → Distinct l
    → sort_func compare_cases l ≡ sort_func compare_cases l'
unfolding sort_func
sort_func-Permᴰ Permᴰ.nil h d = refl
sort_func-Permᴰ (Permᴰ.cons {a} {b} {l₂ = l'} e p) h d =
    ap (insert_sorted compare_cases a) (sort_func-Permᴰ p (λ c at. h c (there at)) d.1)
    ∙ ap (λ x. insert_sorted compare_cases x (sort_func compare_cases l')) e
sort_func-Permᴰ (Permᴰ.swap {a} {b} {a'} {b'} {l} e f) h d =
    let p = h a (here refl) in
    let q = h b (there (here refl)) in
    insert_sorted_comm a b p q (λ same. (d.0 b (here refl)).0 (rank-inj a.order b.order p q same))
      (sort_func compare_cases l) (AllOrders-sort_func l (λ c at. h c (there (there at))))
    ∙ ap
        (λ x.
          insert_sorted compare_cases x (insert_sorted compare_cases a (sort_func compare_cases l)))
        f
    ∙ ap
        (λ x.
          insert_sorted compare_cases a'
            (insert_sorted compare_cases x (sort_func compare_cases l)))
        e
sort_func-Permᴰ (Permᴰ.trans p q) h d =
    sort_func-Permᴰ p h d ∙ sort_func-Permᴰ q (λ c at. h c (Permᴰ-In p at)) (Permᴰ-Distinct p d)

-- Strictly ascending orders.
abbrev pub Ascending : List ComplexityCase → Type 0
Ascending [] = Unit
Ascending (c ∷ l) = ((d : ComplexityCase) → In d l → rank c.order < rank d.order) × Ascending l

insert_sorted-Ascending :
    (a : ComplexityCase) (l : List ComplexityCase)
    → AllOrders (a ∷ l)
    → ((d : ComplexityCase) → In d l → rank a.order ≢ rank d.order)
    → Ascending l
    → Ascending (insert_sorted compare_cases a l)
unfolding insert_sorted
insert_sorted-Ascending a [] h new s = (λ d at. elim at [ ], tt)
insert_sorted-Ascending a (b ∷ l) h new s =
    let test = below b a (h b (there (here refl))) (h a (here refl)) in
    elim (Bool-cases (is_negative (compare_cases b a))) [
      | inl lower ↦ rw lower (
        λ d at. elim (In-cons (insert_sorted-In a l at)) [
          | inl e ↦ subst (λ d. rank b.order < rank d.order) (sym e) (ground arith)
          | inr old ↦ s.0 d old
        ],
        insert_sorted-Ascending a l
            (λ c at. elim (In-cons at) [ inl e ↦ h c (here e) | inr old ↦ h c (there (there old)) ])
            (λ d at. new d (there at)) s.1,
      )
      | inr higher ↦ rw higher (
        λ d at. elim (In-cons at) [
          | inl e ↦
              subst (λ d. rank a.order < rank d.order) (sym e) (ground (arith, new b (here refl)))
          | inr old ↦ ground (arith, new b (here refl), s.0 d old)
        ],
        s,
      )
    ]

pub sort_func-Ascending :
    (l : List ComplexityCase) → AllOrders l → Distinct l → Ascending (sort_func compare_cases l)
unfolding sort_func
sort_func-Ascending [] h d = tt
sort_func-Ascending (a ∷ l) h d =
    insert_sorted-Ascending a (sort_func compare_cases l)
      (λ c at. elim (In-cons at) [
        | inl e ↦ h c (here e)
        | inr old ↦ h c (there (sort_func-In l old))
      ])
      (λ c at same.
        (d.0 c (sort_func-In l at)).0
          (rank-inj a.order c.order (h a (here refl)) (h c (there (sort_func-In l at))) same))
      (sort_func-Ascending l (λ c at. h c (there at)) d.1)

insert_sorted-Permᴰ :
    (a : ComplexityCase) (l : List ComplexityCase) → Permᴰ (a ∷ l) (insert_sorted compare_cases a l)
unfolding insert_sorted
insert_sorted-Permᴰ a [] = Permᴰ.cons refl Permᴰ.nil
insert_sorted-Permᴰ a (b ∷ l) = elim (Bool-cases (is_negative (compare_cases b a))) [
  | inl lower ↦
      rw lower (Permᴰ.trans (Permᴰ.swap refl refl) (Permᴰ.cons refl (insert_sorted-Permᴰ a l)))
  | inr higher ↦ rw higher (Permᴰ.refl (a ∷ b ∷ l))
]

pub Permᴰ-sort_func : (l : List ComplexityCase) → Permᴰ l (sort_func compare_cases l)
unfolding sort_func
Permᴰ-sort_func [] = Permᴰ.nil
Permᴰ-sort_func (a ∷ l) =
    Permᴰ.trans (Permᴰ.cons refl (Permᴰ-sort_func l))
      (insert_sorted-Permᴰ a (sort_func compare_cases l))
