-- ===== src/Base/Best.antt =====
-- The first of the least elements that pass a test: what a search in a stably sorted list finds.
use mathlib.Core.Path.{subst, ◌≡◌, refl, sym, ap, ◌∙◌}
use mathlib.Core.Bool.{Bool, true, false, ◌&&◌}
use mathlib.Core.Logic.{◌⊎◌, inl, inr}
use mathlib.Core.List.{List, [], ◌∷◌}
use mathlib.Core.Option.{Option, none, some}
use native.Mathlib.Omega.{arith}
use landscape_rill.Base.Tests.{if◌then◌else◌, Bool-cases, Option-cases}
use landscape_rill.Base.Lists.{filter, find?, All, In}
use landscape_rill.Base.Sort.{
  sort_insert, sort_by, IsSorted, IsTotal, All-le_trans, sort_by-IsSorted,
}

module _ {ℓ} {A : Type ℓ} (le : A → A → Bool) where
  -- `x` against the best of the later elements: an equal one does not replace it.
  abbrev pub better : (A → Bool) → A → Option A → Option A
  better p x none = if p x then some x else none
  better p x (some b) = if p x && le x b then some x else some b

  -- The first of the least elements that pass the test, in one pass and with no sort.
  abbrev pub first_best : (A → Bool) → List A → Option A
  first_best p [] = none
  first_best p (x ∷ xs) = better p x (first_best p xs)

module _ {ℓ} {A : Type ℓ} (le : A → A → Bool) (t : IsTotal le) where
  All-find? {κ} :
      (P : A → Type κ) (p : A → Bool) (ys : List A) (b : A) → All P ys → find? p ys ≡ some b → P b
  All-find? P p [] b a e = cc
  All-find? P p (y ∷ ys) b a e = elim (Bool-cases (p y)) [
    | inl h ↦ subst P (cc (rw h at e)) a.0
    | inr h ↦ All-find? P p ys b a.1 (rw h at e)
  ]

  find?-sort_insert :
      (p : A → Bool) (x : A) (ys : List A)
      → IsSorted le ys
      → find? p (sort_insert le x ys) ≡ better le p x (find? p ys)
  find?-sort_insert p x [] s = refl
  find?-sort_insert p x (y ∷ ys) s = elim (Bool-cases (le x y)) [
    | inl h ↦ rw h (elim (Bool-cases (p x)) [
      | inl hx ↦ rw hx (elim (Option-cases (find? p (y ∷ ys))) [
        | inl e ↦ rw e (rw hx)
        | inr (b, e) ↦ rw e (
            rw (
              hx,
              All-find? (λ z. le x z ≡ true) p (y ∷ ys) b (h, All-le_trans le t x y ys h s.0) e,
            ))
      ])
      | inr hx ↦ rw hx (elim (Option-cases (find? p (y ∷ ys))) [
        | inl e ↦ rw e (rw hx)
        | inr (b, e) ↦ rw e (rw hx)
      ])
    ])
    | inr h ↦ ground (arith, h, find?-sort_insert p x ys s.1)
  ]

  -- The first element of the sorted list that passes a test is found with no sort.
  pub find?-sort_by : (p : A → Bool) (xs : List A) → find? p (sort_by le xs) ≡ first_best le p xs
  find?-sort_by p [] = refl
  find?-sort_by p (x ∷ xs) =
      find?-sort_insert p x (sort_by le xs) (sort_by-IsSorted le t xs)
      ∙ ap (better le p x) (find?-sort_by p xs)

  better_swap :
      (p : A → Bool) (x y : A) (o : Option A)
      → le x y ≡ true
      → le y x ≡ false
      → better le p y (better le p x o) ≡ better le p x (better le p y o)
  better_swap p x y none h k = ground arith
  better_swap p x y (some b) h k = ground (arith, t.trans x y b, t.trans x b y, t.trans y b x)

  -- A first sort that only moves an element past worse ones changes nothing.
  module _ (le' : A → A → Bool)
      (finer : (x y : A) → le' x y ≡ false → (le x y ≡ true) × (le y x ≡ false)) where
    first_best-sort_insert :
        (p : A → Bool) (x : A) (ys : List A)
        → first_best le p (sort_insert le' x ys) ≡ first_best le p (x ∷ ys)
    first_best-sort_insert p x [] = refl
    first_best-sort_insert p x (y ∷ ys) = elim (Bool-cases (le' x y)) [
      | inl h ↦ rw h
      | inr h ↦ rw h (
          ap (better le p y) (first_best-sort_insert p x ys)
          ∙ better_swap p x y (first_best le p ys) (finer x y h).0 (finer x y h).1)
    ]

    pub first_best-sort_by :
        (p : A → Bool) (xs : List A) → first_best le p (sort_by le' xs) ≡ first_best le p xs
    first_best-sort_by p [] = refl
    first_best-sort_by p (x ∷ xs) =
        first_best-sort_insert p x (sort_by le' xs) ∙ ap (better le p x) (first_best-sort_by p xs)

module _ {ℓ} {A : Type ℓ} (le : A → A → Bool) where
  better_and :
      (p q : A → Bool) (x : A) (o : Option A)
      → better le (λ e. p e && q e) x o ≡ (if p x then better le q x o else o)
  better_and p q x none = ground arith
  better_and p q x (some b) = ground arith

  -- Filtering first is testing both.
  pub first_best-filter :
      (p q : A → Bool) (xs : List A)
      → first_best le q (filter p xs) ≡ first_best le (λ e. p e && q e) xs
  first_best-filter p q [] = refl
  first_best-filter p q (x ∷ xs) =
      let rest = first_best le (λ e. p e && q e) xs in
      let open_test = λ (b : Bool) (e : p x ≡ b).
        ap (λ (c : Bool). first_best le q (if c then x ∷ filter p xs else filter p xs)) e in
      let open_best = λ (b : Bool) (e : p x ≡ b).
        better_and p q x rest ∙ ap (λ (c : Bool). if c then better le q x rest else rest) e in
      elim (Bool-cases (p x)) [
        | inl h ↦
            open_test true h
            ∙ ap (better le q x) (first_best-filter p q xs)
            ∙ sym (open_best true h)
        | inr h ↦ open_test false h ∙ first_best-filter p q xs ∙ sym (open_best false h)
      ]

module _ {A : Type 0} (le : A → A → Bool) (t : IsTotal le) where
  le_refl : (x : A) → le x x ≡ true
  le_refl x = elim (Bool-cases (le x x)) [ inl h ↦ h | inr h ↦ t.total x x h ]

  better-ne-none : (p : A → Bool) (x b : A) → ¬ (better le p x (some b) ≡ none)
  better-ne-none p x b e = ground arith

  better-none : (p : A → Bool) (x : A) → better le p x none ≡ none → p x ≡ false
  better-none p x e = ground arith

  better_first : (p : A → Bool) (x b : A) → better le p x none ≡ some b → (b ≡ x) × (p x ≡ true)
  better_first p x b e = ground arith

  better-some :
      (p : A → Bool) (x c b : A)
      → better le p x (some c) ≡ some b
      → ((b ≡ x) × (p x ≡ true) × (le x c ≡ true)) ⊎ ((b ≡ c) × (p x ≡ true → le x c ≡ false))
  better-some p x c b e = ground arith

  -- Nothing is chosen only if nothing passes the test.
  pub first_best-none :
      (p : A → Bool) (xs : List A) → first_best le p xs ≡ none → (y : A) → In y xs → p y ≡ false
  first_best-none p [] e y i = elim i [ ]
  first_best-none p (x ∷ xs) e y i = elim (Option-cases (first_best le p xs)) [
    | inr (b, f) ↦ absurd (better-ne-none p x b (rw f at e))
    | inl f ↦ elim i [
      | inl same ↦ rw same (better-none p x (rw f at e))
      | inr later ↦ first_best-none p xs f y later
    ]
  ]

  -- What is chosen is in the list, passes the test, and comes before all that pass it.
  pub first_best-some :
      (p : A → Bool) (xs : List A) (b : A)
      → first_best le p xs ≡ some b
      → In b xs × (p b ≡ true) × ((y : A) → In y xs → p y ≡ true → le b y ≡ true)
  first_best-some p [] b e = cc
  first_best-some p (x ∷ xs) b e = elim (Option-cases (first_best le p xs)) [
    | inl f ↦
        let (same, passes) = better_first p x b (rw f at e) in
        (
          inl same,
          rw same passes,
          λ y i h. elim i [
            | inl yx ↦ rw (same, yx) (le_refl x)
            | inr later ↦ cc (h, first_best-none p xs f y later)
          ],
        )
    | inr (c, f) ↦
        let (found, passes, least) = first_best-some p xs c f in
        elim (better-some p x c b (rw f at e)) [
          | inl (same, px, le_xc) ↦ (
            inl same,
            rw same px,
            λ y i h. rw same (elim i [
              | inl yx ↦ rw yx (le_refl x)
              | inr later ↦ t.trans x c y le_xc (least y later h)
            ]),
          )
          | inr (same, worse) ↦ (
            inr (subst (λ (z : A). In z xs) (sym same) found),
            rw same passes,
            λ y i h. rw same (elim i [
              | inl yx ↦ rw yx (t.total x c (worse (rw yx at h)))
              | inr later ↦ least y later h
            ]),
          )
        ]
  ]
