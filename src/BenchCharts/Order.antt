-- ===== src/BenchCharts/Order.antt =====
-- The order of the cases in a chart: `slices.SortFunc` with the comparison of
-- internal/testutil/cmd/benchcharts/main.go, on ints of 64 bits.
use postgres_sqlguard.Common.{
  ℕ, ◌+◌, ◌-◌, ◌%◌, ◌^◌, ◌<◌, ◌≤◌, ◌≡◌, ◌↔◌, arith, Bool, true, false, ltb, List, [], ◌∷◌, ℤ, pos,
  negsuc, if◌then◌else◌,
}
use postgres_sqlguard.BenchCharts.Dataset.{ComplexityCase}

-- The word of an int, and the int that a word stands for.
abbrev pub to_word : ℤ → ℕ
to_word (pos n) = n % 2 ^ 64
to_word (negsuc n) = 2 ^ 64 - 1 - n % 2 ^ 64

abbrev pub of_word : ℕ → ℤ
of_word w = if ltb w (2 ^ 63) then pos w else negsuc (2 ^ 64 - 1 - w)

-- `a - b` on ints: it wraps around.
unfoldable pub sub_int : ℤ → ℤ → ℤ
sub_int a b = of_word ((to_word a + (2 ^ 64 - to_word b)) % 2 ^ 64)

abbrev pub is_negative : ℤ → Bool
is_negative (pos n) = false
is_negative (negsuc n) = true

-- `left.Order - right.Order`
unfoldable pub compare_cases : ComplexityCase → ComplexityCase → ℤ
unfolding sub_int
compare_cases left right = sub_int left.order right.order

-- `slices.SortFunc(cases, cmp)`: some order in which no element is below its predecessor.
module _ {A : Type 0} (cmp : A → A → ℤ) where
  unfoldable pub insert_sorted : A → List A → List A
  insert_sorted a [] = a ∷ []
  insert_sorted a (b ∷ bs) =
      let rest = insert_sorted a bs in if is_negative (cmp b a) then b ∷ rest else a ∷ b ∷ bs

  unfoldable pub sort_func : List A → List A
  unfolding insert_sorted
  sort_func [] = []
  sort_func (a ∷ rest) = insert_sorted a (sort_func rest)

-- The order of a valid case: 1 or more, and a 64-bit int.
abbrev pub IsOrder : ℤ → Type 0
IsOrder (pos n) = (1 ≤ n) × (n < 2 ^ 63)
IsOrder (negsuc n) = ⊥

abbrev pub rank : ℤ → ℕ
rank (pos n) = n
rank (negsuc n) = 0

pub sub_int-order :
    (a b : ℤ) → IsOrder a → IsOrder b → (is_negative (sub_int a b) ≡ true) ↔ (rank a < rank b)
unfolding sub_int
sub_int-order (pos m) (pos n) p q = (λ h. ground arith, λ h. ground arith)
sub_int-order (pos m) (negsuc n) p q = absurd q
sub_int-order (negsuc m) b p q = absurd p

-- The difference of two numbers, as an integer.
abbrev pub difference : ℕ → ℕ → ℤ
difference m n = if ltb m n then negsuc (n - m - 1) else pos (m - n)

sub_int-difference : (m n : ℕ) → m < 2 ^ 63 → n < 2 ^ 63 → sub_int (pos m) (pos n) ≡ difference m n
unfolding sub_int
sub_int-difference m n p q = ground arith

-- The comparison of two cases with orders that `validate` accepts does not overflow: it is
-- the difference of the two orders.
pub compare_cases-difference :
    (c d : ComplexityCase)
    → IsOrder c.order
    → IsOrder d.order
    → compare_cases c d ≡ difference (rank c.order) (rank d.order)
unfolding compare_cases
compare_cases-difference c d p q = orders c.order d.order p q
  where
    orders : (a b : ℤ) → IsOrder a → IsOrder b → sub_int a b ≡ difference (rank a) (rank b)
    orders (pos m) (pos n) p q = sub_int-difference m n p.1 q.1
    orders (pos m) (negsuc n) p q = absurd q
    orders (negsuc m) b p q = absurd p
