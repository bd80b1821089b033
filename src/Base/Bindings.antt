-- ===== src/Base/Bindings.antt =====
-- Where a binding of a changed map comes from, and which bindings a change keeps.
use mathlib.Core.Path.{◌≡◌, refl, sym, ◌∙◌, subst}
use mathlib.Core.Bool.{true, false}
use mathlib.Core.Logic.{◌⊎◌, inl, inr}
use mathlib.Core.List.{List}
use mathlib.Core.Option.{none, some}
use landscape_rill.Base.Tests.{Bool-cases}
use landscape_rill.Base.Assoc.{Eq, lookup, insert, erase, lookup-insert, lookup-erase}

module _ {ℓ} {K : Type ℓ} ⦃q : Eq K⦄ where
  -- A key is the same as another, or told apart.
  pub beq-cases : (k j : K) → (k ≡ j) ⊎ (q.beq k j ≡ false)
  beq-cases k j = elim (Bool-cases (q.beq k j)) [
    | inl same ↦ inl ((q.beq_iff k j).0 same)
    | inr other ↦ inr other
  ]

  pub beq_refl : (k : K) → q.beq k k ≡ true
  beq_refl k = (q.beq_iff k k).1 refl

  pub beq_apart : (k j : K) → q.beq k j ≡ false → (k ≡ j) → ⊥
  beq_apart k j other same = let e = (q.beq_iff k j).1 same in cc

module _ {ℓ κ} {K : Type ℓ} {V : Type κ} ⦃q : Eq K⦄ where
  pub lookup-insert_same : (k : K) (v : V) (m : List (K × V)) → lookup k (insert k v m) ≡ some v
  lookup-insert_same k v m = rw (lookup-insert k k v m, beq_refl k)

  pub lookup-insert_other :
      (k j : K) (v : V) (m : List (K × V))
      → q.beq k j ≡ false
      → lookup j (insert k v m) ≡ lookup j m
  lookup-insert_other k j v m other = rw (lookup-insert k j v m, other)

  -- The bound values stay where a new key is bound.
  pub lookup-insert_new :
      (k j : K) (v w : V) (m : List (K × V))
      → lookup k m ≡ none
      → lookup j m ≡ some w
      → lookup j (insert k v m) ≡ some w
  lookup-insert_new k j v w m free bound = elim (beq-cases k j) [
    | inl same ↦ let absent : lookup j m ≡ none = subst (λ x. lookup x m ≡ none) same free in cc
    | inr other ↦ lookup-insert_other k j v m other ∙ bound
  ]

  pub insert-cases :
      (k j : K) (v w : V) (m : List (K × V))
      → lookup j (insert k v m) ≡ some w
      → ((k ≡ j) × (v ≡ w)) ⊎ ((q.beq k j ≡ false) × (lookup j m ≡ some w))
  insert-cases k j v w m h = elim (beq-cases k j) [
    | inl same ↦
        let here : lookup j (insert k v m) ≡ some v =
          subst (λ x. lookup x (insert k v m) ≡ some v) same (lookup-insert_same k v m) in
        inl (same, cc)
    | inr other ↦ inr (other, sym (lookup-insert_other k j v m other) ∙ h)
  ]

  pub lookup-erase_same : (k : K) (m : List (K × V)) → lookup k (erase k m) ≡ none
  lookup-erase_same k m = rw (lookup-erase k k m, beq_refl k)

  pub lookup-erase_other :
      (k j : K) (m : List (K × V)) → q.beq k j ≡ false → lookup j (erase k m) ≡ lookup j m
  lookup-erase_other k j m other = rw (lookup-erase k j m, other)

  pub erase-cases :
      (k j : K) (w : V) (m : List (K × V))
      → lookup j (erase k m) ≡ some w
      → (q.beq k j ≡ false) × (lookup j m ≡ some w)
  erase-cases k j w m h = elim (beq-cases k j) [
    | inl same ↦
        let gone : lookup j (erase k m) ≡ none =
          subst (λ x. lookup x (erase k m) ≡ none) same (lookup-erase_same k m) in
        let lost : ⊥ = cc in elim lost [ ]
    | inr other ↦ (other, sym (lookup-erase_other k j m other) ∙ h)
  ]

  -- An absent key stays absent under a removal.
  pub lookup-erase-none :
      (k j : K) (m : List (K × V)) → lookup j m ≡ none → lookup j (erase k m) ≡ none
  lookup-erase-none k j m h = elim (beq-cases k j) [
    | inl same ↦ subst (λ x. lookup x (erase k m) ≡ none) same (lookup-erase_same k m)
    | inr other ↦ lookup-erase_other k j m other ∙ h
  ]
