-- ===== src/Base/Filters.antt =====
-- Laws of `filter`, `find?`, `any` and `map` with Boolean tests.
use mathlib.Core.Path.{◌≡◌, refl, sym, ap, subst}
use mathlib.Core.Bool.{Bool, true, false, not}
use mathlib.Core.Logic.{◌⊎◌, inl, inr}
use mathlib.Core.List.{List, [], ◌∷◌, ◌++◌, map}
use mathlib.Core.Option.{none, some}
use Prim.Native.Nat.{◌≤◌}
use native.Mathlib.Omega.{arith}
use landscape_rill.Base.Tests.{Bool-cases, ◌==◌}
use landscape_rill.Base.Lists.{length, filter, find?, any, In}

module _ {ℓ κ} {A : Type ℓ} {B : Type κ} (f : A → B) where
  pub filter-map :
      (p : B → Bool) (xs : List A) → filter p (map f xs) ≡ map f (filter (λ x. p (f x)) xs)
  filter-map p [] = refl
  filter-map p (x ∷ xs) = elim (Bool-cases (p (f x))) [
    | inl h ↦ rw h (ap (λ (t : List B). f x ∷ t) (filter-map p xs))
    | inr h ↦ rw h (filter-map p xs)
  ]

module _ {ℓ} {A : Type ℓ} where
  pub filter_comm : (p q : A → Bool) (xs : List A) → filter p (filter q xs) ≡ filter q (filter p xs)
  filter_comm p q [] = refl
  filter_comm p q (x ∷ xs) = ground (arith, filter_comm p q xs)

  pub filter-append :
      (p : A → Bool) (xs ys : List A) → filter p (xs ++ ys) ≡ filter p xs ++ filter p ys
  filter-append p [] ys = refl
  filter-append p (x ∷ xs) ys = ground (arith, filter-append p xs ys)

  pub length-filter-le : (p : A → Bool) (xs : List A) → length (filter p xs) ≤ length xs
  length-filter-le p [] = omega arith
  length-filter-le p (x ∷ xs) = ground (arith, length-filter-le p xs)

  -- `retain` shortens a list exactly if it drops something.
  pub length-filter-not :
      (p : A → Bool) (xs : List A)
      → not (length (filter (λ x. not (p x)) xs) == length xs) ≡ any p xs
  length-filter-not p [] = refl
  length-filter-not p (x ∷ xs) =
      ground (arith, length-filter-not p xs, length-filter-le (λ y. not (p y)) xs)

  -- Nothing that was filtered out is found.
  pub any-filter-not : (p : A → Bool) (xs : List A) → any p (filter (λ x. not (p x)) xs) ≡ false
  any-filter-not p [] = refl
  any-filter-not p (x ∷ xs) = ground (arith, any-filter-not p xs)

module _ {A : Type 0} where
  pub In-filter : (p : A → Bool) (y : A) (xs : List A) → In y (filter p xs) → In y xs × (p y ≡ true)
  In-filter p y [] i = elim i [ ]
  In-filter p y (x ∷ xs) i = elim (Bool-cases (p x)) [
    | inl h ↦ elim (let j : (y ≡ x) ⊎ In y (filter p xs) = rw h at i in j) [
      | inl e ↦ (inl e, rw e h)
      | inr later ↦ let (found, passes) = In-filter p y xs later in (inr found, passes)
    ]
    | inr h ↦ let (found, passes) = In-filter p y xs (rw h at i) in (inr found, passes)
  ]

  pub In-find? : (p : A → Bool) (y : A) (xs : List A) → find? p xs ≡ some y → In y xs × (p y ≡ true)
  In-find? p y [] e = cc
  In-find? p y (x ∷ xs) e = elim (Bool-cases (p x)) [
    | inl h ↦
        let same : x ≡ y = cc (rw h at e) in (inl (sym same), subst (λ (z : A). p z ≡ true) same h)
    | inr h ↦ let (found, passes) = In-find? p y xs (rw h at e) in (inr found, passes)
  ]

  pub find?-none :
      (p : A → Bool) (xs : List A) → find? p xs ≡ none → (y : A) → In y xs → p y ≡ false
  find?-none p [] e y i = elim i [ ]
  find?-none p (x ∷ xs) e y i = elim (Bool-cases (p x)) [
    | inl h ↦ cc (rw h at e)
    | inr h ↦ elim i [ inl same ↦ rw same h | inr later ↦ find?-none p xs (rw h at e) y later ]
  ]

  pub any-true : (p : A → Bool) (xs : List A) → any p xs ≡ true → (y : A) × In y xs × (p y ≡ true)
  any-true p [] e = cc
  any-true p (x ∷ xs) e = elim (Bool-cases (p x)) [
    | inl h ↦ (x, inl refl, h)
    | inr h ↦ let (y, found, passes) = any-true p xs (rw h at e) in (y, inr found, passes)
  ]

  pub any_of_In : (p : A → Bool) (xs : List A) (y : A) → In y xs → p y ≡ true → any p xs ≡ true
  any_of_In p [] y i h = elim i [ ]
  any_of_In p (x ∷ xs) y (inl e) h = rw (rw e at h)
  any_of_In p (x ∷ xs) y (inr i) h = ground (arith, any_of_In p xs y i h)

  pub any-false : (p : A → Bool) (xs : List A) → any p xs ≡ false → (y : A) → In y xs → p y ≡ false
  any-false p xs e y i = elim (Bool-cases (p y)) [ inl h ↦ cc (any_of_In p xs y i h) | inr h ↦ h ]

  pub any-false_of :
      (p : A → Bool) (xs : List A) → ((y : A) → In y xs → p y ≡ false) → any p xs ≡ false
  any-false_of p xs all = elim (Bool-cases (any p xs)) [
    | inl h ↦ let (y, found, passes) = any-true p xs h in cc (all y found)
    | inr h ↦ h
  ]

  pub In-append : (x : A) (xs ys : List A) → In x (xs ++ ys) → In x xs ⊎ In x ys
  In-append x [] ys i = inr i
  In-append x (y ∷ xs) ys (inl e) = inl (inl e)
  In-append x (y ∷ xs) ys (inr i) = elim (In-append x xs ys i) [
    | inl j ↦ inl (inr j)
    | inr j ↦ inr j
  ]
