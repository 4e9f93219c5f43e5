-- ===== src/BenchCharts/Valid.antt =====
-- What `validate` of internal/testutil/cmd/benchcharts/main.go accepts, without its maps.
use postgres_sqlguard.Common.{
  ℕ, ◌≤◌, ◌≡◌, ◌≢◌, ◌↔◌, ◌⊎◌, inl, inr, refl, sym, subst, arith, Bool, true, false, ◌||◌, List, [],
  ◌∷◌, none, GoString, str_eq, str_eq_iff, ℤ, pos, negsuc, In, here, there,
}
use postgres_sqlguard.BenchCharts.Float.{positive_finite}
use postgres_sqlguard.BenchCharts.Dataset.{
  BackendStrings, ComplexityCase, is_empty, int_lt, int_eq, has_order, has_id, measured,
  validate_cases,
}

-- The int is `n` or more.
abbrev pub AtLeast : ℕ → ℤ → Type 0
AtLeast n (pos m) = n ≤ m
AtLeast n (negsuc m) = ⊥

abbrev pub IsComplete : BackendStrings → Type 0
IsComplete b = (b.cgo ≢ []) × (b.no_cgo ≢ [])

abbrev pub IsMeasured : ComplexityCase → Type 0
IsMeasured c =
    (positive_finite c.cgo.latency ≡ true)
    × (positive_finite c.no_cgo.latency ≡ true)
    × (positive_finite c.cgo.allocated_bytes ≡ true)
    × (positive_finite c.no_cgo.allocated_bytes ≡ true)

-- A case that may stand in a data set.
pub record IsCase (c : ComplexityCase) : Type 0 where
  pub id : c.id ≢ []
  pub label : c.label ≢ []
  pub order : AtLeast 1 c.order
  pub measurements : IsMeasured c

-- No two cases share an order or an identifier.
abbrev pub Distinct : List ComplexityCase → Type 0
Distinct [] = Unit
Distinct (c ∷ cases) =
    ((d : ComplexityCase) → In d cases → (c.order ≢ d.order) × (c.id ≢ d.id)) × Distinct cases

pub is_empty-false : (s : GoString) → (is_empty s ≡ false) ↔ (s ≢ [])
is_empty-false [] = (λ h. cc, λ h. absurd (h refl))
is_empty-false (c ∷ s) = (λ h e. cc, λ h. refl)

pub int_lt-false : (z : ℤ) (n : ℕ) → (int_lt z n ≡ false) ↔ AtLeast n z
int_lt-false (pos m) n = (λ h. ground arith, λ h. ground arith)
int_lt-false (negsuc m) n = (λ h. cc, λ h. absurd h)

int_eq_iff : (a b : ℤ) → (int_eq a b ≡ true) ↔ (a ≡ b)
int_eq_iff (pos m) (pos n) = (λ h. ground arith, λ h. ground arith)
int_eq_iff (negsuc m) (negsuc n) = (λ h. ground arith, λ h. ground arith)
int_eq_iff (pos m) (negsuc n) = (λ h. absurd (cc), λ h. absurd (cc))
int_eq_iff (negsuc m) (pos n) = (λ h. absurd (cc), λ h. absurd (cc))

pub In-cons : {A : Type 0} {x y : A} {ys : List A} → In x (y ∷ ys) → (x ≡ y) ⊎ In x ys
In-cons (here e) = inl e
In-cons (there at) = inr at

-- A key that is neither the first one nor among the others.
unseen_cons :
    {A : Type 0} {x y : A} {ys : List A} (p q : Bool)
    → (p ≡ true) ↔ (y ≡ x)
    → (q ≡ false) ↔ (¬ In x ys)
    → ((p || q) ≡ false) ↔ (¬ In x (y ∷ ys))
unseen_cons true q same others = (λ h. cc, λ h. absurd (h (here (sym (same.0 refl)))))
unseen_cons false q same others = (
  λ h at. elim (In-cons at) [ inl e ↦ absurd (cc (same.1 (sym e))) | inr at' ↦ others.0 h at' ],
  λ h. others.1 (λ at. h (there at)),
)

has_order-false :
    (orders : List ℤ) (order : ℤ) → (has_order orders order ≡ false) ↔ (¬ In order orders)
unfolding has_order
has_order-false [] order = (λ h at. elim at [ ], λ h. refl)
has_order-false (seen ∷ orders) order =
    unseen_cons (int_eq seen order) (has_order orders order) (int_eq_iff seen order)
      (has_order-false orders order)

has_id-false : (ids : List GoString) (id : GoString) → (has_id ids id ≡ false) ↔ (¬ In id ids)
unfolding has_id
has_id-false [] id = (λ h at. elim at [ ], λ h. refl)
has_id-false (seen ∷ ids) id =
    unseen_cons (str_eq seen id) (has_id ids id) (str_eq_iff seen id) (has_id-false ids id)

measured_iff : (c : ComplexityCase) → (measured c ≡ true) ↔ IsMeasured c
unfolding measured
measured_iff c = (λ h. (ground arith, ground arith, ground arith, ground arith), λ h. ground arith)

-- One round of the loop, with its tests as hypotheses.
round-none :
    (orders : List ℤ) (ids : List GoString) (c : ComplexityCase) (cases : List ComplexityCase)
    → (validate_cases orders ids (c ∷ cases) ≡ none) ↔ (
        (is_empty c.id ≡ false)
        × (is_empty c.label ≡ false)
        × (int_lt c.order 1 ≡ false)
        × (has_order orders c.order ≡ false)
        × (has_id ids c.id ≡ false)
        × (measured c ≡ true)
        × (validate_cases (c.order ∷ orders) (c.id ∷ ids) cases ≡ none))
unfolding validate_cases
round-none orders ids c cases = (
  λ h. (
    ground arith,
    ground arith,
    ground arith,
    ground arith,
    ground arith,
    ground arith,
    ground arith,
  ),
  λ h. ground arith,
)

-- What the loop accepts after some cases.
pub record Accepts (orders : List ℤ) (ids : List GoString) (cases : List ComplexityCase)
    : Type 0 where
  pub each : (c : ComplexityCase) → In c cases → IsCase c
  pub new_order : (c : ComplexityCase) → In c cases → ¬ In c.order orders
  pub new_id : (c : ComplexityCase) → In c cases → ¬ In c.id ids
  pub distinct : Distinct cases

pub validate_cases-Accepts :
    (orders : List ℤ) (ids : List GoString) (cases : List ComplexityCase)
    → validate_cases orders ids cases ≡ none
    → Accepts orders ids cases
validate_cases-Accepts orders ids [] h = record {
  each = λ c at. elim at [ ];
  new_order = λ c at. elim at [ ];
  new_id = λ c at. elim at [ ];
  distinct = tt;
}
validate_cases-Accepts orders ids (c ∷ cases) h =
    let (id, label, order, fresh_order, fresh_id, good, rest) =
      (round-none orders ids c cases).0 h in
    let later = validate_cases-Accepts (c.order ∷ orders) (c.id ∷ ids) cases rest in
    let first : IsCase c = record {
      id = (is_empty-false c.id).0 id;
      label = (is_empty-false c.label).0 label;
      order = (int_lt-false c.order 1).0 order;
      measurements = (measured_iff c).0 good;
    } in
    record {
      each = λ d at. elim (In-cons at) [
        | inl e ↦ subst IsCase (sym e) first
        | inr at' ↦ later.each d at'
      ];
      new_order = λ d at. elim (In-cons at) [
        | inl e ↦
            subst (λ d. ¬ In d.order orders) (sym e)
              ((has_order-false orders c.order).0 fresh_order)
        | inr at' ↦ λ seen. later.new_order d at' (there seen)
      ];
      new_id = λ d at. elim (In-cons at) [
        | inl e ↦ subst (λ d. ¬ In d.id ids) (sym e) ((has_id-false ids c.id).0 fresh_id)
        | inr at' ↦ λ seen. later.new_id d at' (there seen)
      ];
      distinct = (
        λ d at. (λ e. later.new_order d at (here (sym e)), λ e. later.new_id d at (here (sym e))),
        later.distinct,
      );
    }

pub Accepts-validate_cases :
    (orders : List ℤ) (ids : List GoString) (cases : List ComplexityCase)
    → Accepts orders ids cases
    → validate_cases orders ids cases ≡ none
Accepts-validate_cases orders ids [] a = unfold validate_cases in refl
Accepts-validate_cases orders ids (c ∷ cases) a =
    let k = a.each c (here refl) in
    let later = Accepts-validate_cases (c.order ∷ orders) (c.id ∷ ids) cases (record {
      each = λ d at. a.each d (there at);
      new_order = λ d at seen. elim (In-cons seen) [
        | inl e ↦ (a.distinct.0 d at).0 (sym e)
        | inr old ↦ a.new_order d (there at) old
      ];
      new_id = λ d at seen. elim (In-cons seen) [
        | inl e ↦ (a.distinct.0 d at).1 (sym e)
        | inr old ↦ a.new_id d (there at) old
      ];
      distinct = a.distinct.1;
    }) in
    (round-none orders ids c cases).1 (
      (is_empty-false c.id).1 k.id,
      (is_empty-false c.label).1 k.label,
      (int_lt-false c.order 1).1 k.order,
      (has_order-false orders c.order).1 (a.new_order c (here refl)),
      (has_id-false ids c.id).1 (a.new_id c (here refl)),
      (measured_iff c).1 k.measurements,
      later,
    )
