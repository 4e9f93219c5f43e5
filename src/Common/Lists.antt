-- ===== src/Common/Lists.antt =====
-- Lists measured by native numbers, membership as a relation that can be matched, and folds.
use Prim.Native.Nat.{ℕ, suc, ◌+◌}
use mathlib.Core.Path.{◌≡◌, refl, ap}
use mathlib.Core.Logic.{◌⊎◌, inl, inr}
use mathlib.Core.List.{List, [], ◌∷◌, ◌++◌, append_assoc, foldl}
use native.Mathlib.Omega.{arith}

module _ {ℓ} {A : Type ℓ} where
  abbrev pub length : List A → ℕ
  length [] = 0
  length (x ∷ xs) = suc (length xs)

  pub length-append : (xs ys : List A) → length (xs ++ ys) ≡ length xs + length ys
  length-append [] ys = omega arith
  length-append (x ∷ xs) ys = omega (arith, length-append xs ys)

  -- `x` stands in the list, as a position.
  pub data In (x : A) : List A → Type ℓ where
    here : {y : A} {ys : List A} → x ≡ y → In x (y ∷ ys)
    there : {y : A} {ys : List A} → In x ys → In x (y ∷ ys)

module _ {ℓ} {A : Type ℓ} {x : A} where
  pub In-append_left : {xs : List A} (ys : List A) → In x xs → In x (xs ++ ys)
  In-append_left ys (here e) = here e
  In-append_left ys (there m) = there (In-append_left ys m)

  pub In-append_right : (xs : List A) {ys : List A} → In x ys → In x (xs ++ ys)
  In-append_right [] m = m
  In-append_right (y ∷ xs) m = there (In-append_right xs m)

  pub In-append : (xs : List A) {ys : List A} → In x (xs ++ ys) → In x xs ⊎ In x ys
  In-append [] m = inr m
  In-append (y ∷ xs) (here e) = inl (here e)
  In-append (y ∷ xs) (there m) = elim (In-append xs m) [ inl l ↦ inl (there l) | inr r ↦ inr r ]

module _ {ℓ κ} {A : Type ℓ} {B : Type κ} where
  -- The images of the elements, in order, joined.
  unfoldable pub concat_map : (A → List B) → List A → List B
  concat_map f [] = []
  concat_map f (x ∷ xs) = f x ++ concat_map f xs

  -- A loop that only appends to its accumulator.
  pub foldl-concat_map :
      (step : List B → A → List B) (f : A → List B)
      → ((acc : List B) (x : A) → step acc x ≡ acc ++ f x)
      → (acc : List B) (xs : List A) → foldl step acc xs ≡ acc ++ concat_map f xs
  unfolding concat_map
  foldl-concat_map step f h acc [] = rw mathlib.Core.List.append-nil
  foldl-concat_map step f h acc (x ∷ xs) =
      rw (h acc x, foldl-concat_map step f h (acc ++ f x) xs, append_assoc)

  pub In-concat_map :
      {x : A} {y : B} (f : A → List B) {xs : List A} → In x xs → In y (f x) → In y (concat_map f xs)
  unfolding concat_map
  In-concat_map {y = y} f (here {ys = ys} e) m =
      In-append_left (concat_map f ys) (mathlib.Core.Path.subst (λ z. In y (f z)) e m)
  In-concat_map f (there {y = z} r) m = In-append_right (f z) (In-concat_map f r m)

  pub In-concat_map_inv :
      {y : B} (f : A → List B) (xs : List A)
      → In y (concat_map f xs)
      → (x : A) × In x xs × In y (f x)
  unfolding concat_map
  In-concat_map_inv f [] m = elim m [ ]
  In-concat_map_inv f (x ∷ xs) m = elim (In-append (f x) m) [
    | inl h ↦ (x, here refl, h)
    | inr t ↦ let (z, at, found) = In-concat_map_inv f xs t in (z, there at, found)
  ]

  pub concat_map-append :
      (f : A → List B) (xs ys : List A)
      → concat_map f (xs ++ ys) ≡ concat_map f xs ++ concat_map f ys
  unfolding concat_map
  concat_map-append f [] ys = refl
  concat_map-append f (x ∷ xs) ys = rw (concat_map-append f xs ys, append_assoc)

  pub concat_map-congruence :
      (f g : A → List B) (xs : List A)
      → ((x : A) → In x xs → f x ≡ g x)
      → concat_map f xs ≡ concat_map g xs
  unfolding concat_map
  concat_map-congruence f g [] h = refl
  concat_map-congruence f g (x ∷ xs) h =
      rw (h x (here refl), concat_map-congruence f g xs (λ y m. h y (there m)))

pub concat_map-concat_map {ℓ κ μ} :
    {A : Type ℓ} {B : Type κ} {C : Type μ} (g : B → List C) (f : A → List B) (xs : List A)
    → concat_map g (concat_map f xs) ≡ concat_map (λ x. concat_map g (f x)) xs
unfolding concat_map
concat_map-concat_map g f [] = refl
concat_map-concat_map g f (x ∷ xs) =
    rw (concat_map-append g (f x) (concat_map f xs), concat_map-concat_map g f xs)
