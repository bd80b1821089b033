-- ===== src/Base/Sort.antt =====
-- `slice::sort_by_key`: the stable sort by a total preorder, which the order determines.
use mathlib.Core.Path.{◌≡◌, refl, sym, ap, ◌∙◌}
use mathlib.Core.Bool.{Bool, true, false}
use mathlib.Core.Logic.{inl, inr}
use mathlib.Core.List.{List, [], ◌∷◌, map}
use native.Mathlib.Omega.{arith}
use landscape_rill.Base.Tests.{if◌then◌else◌, Bool-cases}
use landscape_rill.Base.Lists.{filter, All}

module _ {ℓ} {A : Type ℓ} (le : A → A → Bool) where
  -- `x` goes before the first element that it does not exceed.
  abbrev pub sort_insert : A → List A → List A
  sort_insert x [] = x ∷ []
  sort_insert x (y ∷ ys) = let rest = sort_insert x ys in if le x y then x ∷ y ∷ ys else y ∷ rest

  abbrev pub sort_by : List A → List A
  sort_by [] = []
  sort_by (x ∷ xs) = sort_insert x (sort_by xs)

  abbrev pub IsSorted : List A → Type 0
  IsSorted [] = Unit
  IsSorted (x ∷ xs) = All (λ y. le x y ≡ true) xs × IsSorted xs

pub record IsTotal {ℓ} {A : Type ℓ} (le : A → A → Bool) : Type ℓ where
  pub total : (x y : A) → le x y ≡ false → le y x ≡ true
  pub trans : (x y z : A) → le x y ≡ true → le y z ≡ true → le x z ≡ true

module _ {ℓ} {A : Type ℓ} (le : A → A → Bool) (t : IsTotal le) where
  pub All-le_trans :
      (x y : A) (ys : List A)
      → le x y ≡ true
      → All (λ z. le y z ≡ true) ys
      → All (λ z. le x z ≡ true) ys
  All-le_trans x y [] h a = tt
  All-le_trans x y (z ∷ zs) h a = (t.trans x y z h a.0, All-le_trans x y zs h a.1)

  All-sort_insert :
      (z x : A) (ys : List A)
      → le z x ≡ true
      → All (λ y. le z y ≡ true) ys
      → All (λ y. le z y ≡ true) (sort_insert le x ys)
  All-sort_insert z x [] h a = (h, tt)
  All-sort_insert z x (y ∷ ys) h a = ground (arith, All-sort_insert z x ys h a.1)

  pub sort_insert-IsSorted :
      (x : A) (ys : List A) → IsSorted le ys → IsSorted le (sort_insert le x ys)
  sort_insert-IsSorted x [] s = (tt, tt)
  sort_insert-IsSorted x (y ∷ ys) s = elim (Bool-cases (le x y)) [
    | inl h ↦ rw h ((h, All-le_trans x y ys h s.0), s)
    | inr h ↦ rw h (All-sort_insert y x ys (t.total x y h) s.0, sort_insert-IsSorted x ys s.1)
  ]

  -- The result is in order.
  pub sort_by-IsSorted : (xs : List A) → IsSorted le (sort_by le xs)
  sort_by-IsSorted [] = tt
  sort_by-IsSorted (x ∷ xs) = sort_insert-IsSorted x (sort_by le xs) (sort_by-IsSorted xs)

  sort_insert-All :
      (x : A) (ys : List A) → All (λ y. le x y ≡ true) ys → sort_insert le x ys ≡ x ∷ ys
  sort_insert-All x [] a = refl
  sort_insert-All x (y ∷ ys) a = rw (a.0)

  All-filter {κ} : (P : A → Type κ) (p : A → Bool) (ys : List A) → All P ys → All P (filter p ys)
  All-filter P p [] a = tt
  All-filter P p (y ∷ ys) a = elim (Bool-cases (p y)) [
    | inl h ↦ rw h (a.0, All-filter P p ys a.1)
    | inr h ↦ rw h (All-filter P p ys a.1)
  ]

  filter-sort_insert :
      (p : A → Bool) (x : A) (ys : List A)
      → IsSorted le ys
      → filter p (sort_insert le x ys)
        ≡ (if p x then sort_insert le x (filter p ys) else filter p ys)
  filter-sort_insert p x [] s = refl
  filter-sort_insert p x (y ∷ ys) s = elim (Bool-cases (le x y)) [
    | inl h ↦ rw h (
        ap (λ (t : List A). if p x then t else filter p (y ∷ ys))
          (sym (
            sort_insert-All x (filter p (y ∷ ys))
              (All-filter (λ z. le x z ≡ true) p (y ∷ ys) (h, All-le_trans x y ys h s.0)))))
    | inr h ↦ rw h (elim (Bool-cases (p y)) [
      | inl hy ↦
          rw (hy, h, filter-sort_insert p x ys s.1)
            (elim (Bool-cases (p x)) [ inl hx ↦ rw hx | inr hx ↦ rw hx ])
      | inr hy ↦ rw hy (filter-sort_insert p x ys s.1)
    ])
  ]

  -- A stable sort commutes with a filter.
  pub filter-sort_by :
      (p : A → Bool) (xs : List A) → filter p (sort_by le xs) ≡ sort_by le (filter p xs)
  filter-sort_by p [] = refl
  filter-sort_by p (x ∷ xs) =
      filter-sort_insert p x (sort_by le xs) (sort_by-IsSorted xs) ∙ elim (Bool-cases (p x)) [
        | inl h ↦ rw h (ap (sort_insert le x) (filter-sort_by p xs))
        | inr h ↦ rw h (filter-sort_by p xs)
      ]

-- Sorting pairs that are computed from the elements.
module _ {ℓ κ} {A : Type ℓ} {B : Type κ} (le : B → B → Bool) (f : A → B) where
  sort_insert-map :
      (x : A) (ys : List A)
      → sort_insert le (f x) (map f ys) ≡ map f (sort_insert (λ a b. le (f a) (f b)) x ys)
  sort_insert-map x [] = refl
  sort_insert-map x (y ∷ ys) = elim (Bool-cases (le (f x) (f y))) [
    | inl h ↦ rw h
    | inr h ↦ rw h (ap (λ (t : List B). f y ∷ t) (sort_insert-map x ys))
  ]

  pub sort_by-map :
      (xs : List A) → sort_by le (map f xs) ≡ map f (sort_by (λ a b. le (f a) (f b)) xs)
  sort_by-map [] = refl
  sort_by-map (x ∷ xs) =
      ap (sort_insert le (f x)) (sort_by-map xs)
      ∙ sort_insert-map x (sort_by (λ a b. le (f a) (f b)) xs)
