-- ===== src/Base/Assoc.antt =====
-- A hash map as an association list. An insertion replaces the first binding of its key or appends
-- one, a removal drops every binding, so the keys of a map that starts empty stay distinct.
use mathlib.Core.Path.{◌≡◌, refl, sym}
use mathlib.Core.Bool.{Bool, true}
use mathlib.Core.Logic.{◌↔◌, ◌⊎◌, inl, inr}
use mathlib.Core.List.{List, [], ◌∷◌}
use mathlib.Core.Option.{Option, none, some}
use Prim.Native.Nat.{ℕ, ◌+◌}
use native.Mathlib.Omega.{arith}
use landscape_rill.Base.Tests.{if◌then◌else◌, Bool-cases}
use landscape_rill.Base.Lists.{In}

pub record Eq {ℓ} (A : Type ℓ) : Type ℓ where
  pub beq : A → A → Bool
  pub beq_iff : (a b : A) → (beq a b ≡ true) ↔ (a ≡ b)

-- A measure of a binding that may be missing.
abbrev pub at {κ} : {V : Type κ} → (V → ℕ) → Option V → ℕ
at f none = 0
at f (some v) = f v

module _ {ℓ κ} {K : Type ℓ} {V : Type κ} ⦃e : Eq K⦄ where
  abbrev pub lookup : K → List (K × V) → Option V
  lookup k [] = none
  lookup k ((j, v) ∷ m) = let rest = lookup k m in if e.beq j k then some v else rest

  abbrev pub insert : K → V → List (K × V) → List (K × V)
  insert k v [] = (k, v) ∷ []
  insert k v ((j, w) ∷ m) =
      let rest = insert k v m in if e.beq j k then (j, v) ∷ m else (j, w) ∷ rest

  abbrev pub erase : K → List (K × V) → List (K × V)
  erase k [] = []
  erase k ((j, w) ∷ m) = let rest = erase k m in if e.beq j k then rest else (j, w) ∷ rest

  abbrev pub keys : List (K × V) → List K
  keys [] = []
  keys ((j, w) ∷ m) = j ∷ keys m

  pub lookup-insert :
      (k j : K) (v : V) (m : List (K × V))
      → lookup j (insert k v m) ≡ (if e.beq k j then some v else lookup j m)
  lookup-insert k j v [] = refl
  lookup-insert k j v ((i, w) ∷ m) =
      ground (arith, lookup-insert k j v m, e.beq_iff i k, e.beq_iff i j, e.beq_iff k j)

  pub lookup-erase :
      (k j : K) (m : List (K × V)) → lookup j (erase k m) ≡ (if e.beq k j then none else lookup j m)
  lookup-erase k j [] = ground arith
  lookup-erase k j ((i, w) ∷ m) =
      ground (arith, lookup-erase k j m, e.beq_iff i k, e.beq_iff i j, e.beq_iff k j)

  -- No key is bound twice.
  abbrev pub IsMap : List (K × V) → Type κ
  IsMap [] = Unit {κ}
  IsMap ((j, w) ∷ m) = (lookup j m ≡ none) × IsMap m

  pub insert-IsMap : (k : K) (v : V) (m : List (K × V)) → IsMap m → IsMap (insert k v m)
  insert-IsMap k v [] h = (refl, tt)
  insert-IsMap k v ((j, w) ∷ m) h =
      ground (arith, insert-IsMap k v m h.1, lookup-insert k j v m, e.beq_iff j k, e.beq_iff k j)

  pub erase-IsMap : (k : K) (m : List (K × V)) → IsMap m → IsMap (erase k m)
  erase-IsMap k [] h = tt
  erase-IsMap k ((j, w) ∷ m) h =
      ground (arith, erase-IsMap k m h.1, lookup-erase k j m, e.beq_iff j k, e.beq_iff k j)

  -- The sum of a measure of the values, and how a change of one binding changes it.
  abbrev pub total : (V → ℕ) → List (K × V) → ℕ
  total f [] = 0
  total f ((j, w) ∷ m) = f w + total f m

  pub total-insert :
      (f : V → ℕ) (k : K) (v : V) (m : List (K × V))
      → total f (insert k v m) + at f (lookup k m) ≡ total f m + f v
  total-insert f k v [] = omega arith
  total-insert f k v ((j, w) ∷ m) = ground (arith, total-insert f k v m)

  erase_absent : (k : K) (m : List (K × V)) → lookup k m ≡ none → erase k m ≡ m
  erase_absent k [] h = refl
  erase_absent k ((j, w) ∷ m) h = ground (arith, erase_absent k m)

  pub total-erase :
      (f : V → ℕ) (k : K) (m : List (K × V))
      → IsMap m
      → total f (erase k m) + at f (lookup k m) ≡ total f m
  total-erase f k [] h = omega arith
  total-erase f k ((j, w) ∷ m) h =
      ground (arith, total-erase f k m h.1, erase_absent k m, e.beq_iff j k)

module _ {K V : Type 0} ⦃e : Eq K⦄ where
  pub In-keys : (k : K) (m : List (K × V)) → In k (keys m) ⊎ (lookup k m ≡ none)
  In-keys k [] = inr refl
  In-keys k ((j, w) ∷ m) = elim (Bool-cases (e.beq j k)) [
    | inl h ↦ inl (inl (sym ((e.beq_iff j k).0 h)))
    | inr h ↦ elim (In-keys k m) [ inl i ↦ inl (inr i) | inr n ↦ inr (rw h n) ]
  ]
