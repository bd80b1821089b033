-- ===== src/Dn42/Wire/RoundTrip/Loops.antt =====
-- A loop that reads back a list of values, each written in front of the others.
use landscape_rill.Base.{
  ℕ, zero, suc, ◌≡◌, ◌<◌, ◌≤◌, refl, ap, ◌∙◌, List, [], ◌∷◌, ◌++◌, All, length, length-append,
  Result, ok, ◌>>=◌, arith,
}
use landscape_rill.Dn42.Wire.{Failure, many, while_left}

-- The values written one behind the other.
abbrev pub write_all {ℓ} : {A : Type ℓ} → (A → List ℕ) → List A → List ℕ
write_all write [] = []
write_all write (a ∷ rest) = write a ++ write_all write rest

-- A round reads `b` off the front of what `a` was written as.
abbrev pub Reads {ℓ κ} :
    {A : Type ℓ} {B : Type κ}
    → (List ℕ → Result Failure (B × List ℕ))
    → (A → List ℕ)
    → (A → B)
    → A
    → Type κ
Reads step write value a =
    (0 < length (write a)) × ((rest : List ℕ) → step (write a ++ rest) ≡ ok (value a, rest))

abbrev pub map_to {ℓ κ} : {A : Type ℓ} {B : Type κ} → (A → B) → List A → List B
map_to f [] = []
map_to f (a ∷ rest) = f a ∷ map_to f rest

module _ {ℓ κ} {A : Type ℓ} {B : Type κ} (step : List ℕ → Result Failure (B × List ℕ))
    (write : A → List ℕ) (value : A → B) where
  many-step :
      (f : ℕ) (buf : List ℕ) (b : B) (rest : List ℕ)
      → 0 < length buf
      → step buf ≡ ok (b, rest)
      → many step (suc f) buf ≡ (many step f rest >>= λ found. ok (b ∷ found))
  unfolding many
  many-step f [] b rest h e = ground arith
  many-step f (x ∷ buf) b rest h e = rw e

  many-write_all :
      (f : ℕ) (as' : List A)
      → All (Reads step write value) as'
      → length (write_all write as') ≤ f
      → many step f (write_all write as') ≡ ok (map_to value as')
  unfolding many
  many-write_all f [] h l = refl
  many-write_all zero (a ∷ rest) h l =
      let (some_byte, _) = h.0 in
      let none_left : ⊥ =
        omega (arith, some_byte, l, length-append (write a) (write_all write rest)) in
      elim none_left [ ]
  many-write_all (suc f) (a ∷ rest) h l =
      let (some_byte, reads) = h.0 in
      let total = length-append (write a) (write_all write rest) in
      many-step f (write a ++ write_all write rest) (value a) (write_all write rest)
        (omega (arith, some_byte, total)) (reads (write_all write rest))
      ∙ ap (λ r. r >>= λ found. ok (value a ∷ found))
          (many-write_all f rest h.1 (omega (arith, some_byte, l, total)))

  pub while_left-write_all :
      (as' : List A)
      → All (Reads step write value) as'
      → while_left step (write_all write as') ≡ ok (map_to value as')
  while_left-write_all as' h = many-write_all (length (write_all write as')) as' h (omega arith)

pub map_to_id {ℓ} : {A : Type ℓ} (l : List A) → map_to (λ (a : A). a) l ≡ l
map_to_id [] = refl
map_to_id (a ∷ rest) = ap (λ t. a ∷ t) (map_to_id rest)

pub All-map {ℓ κ} :
    {A : Type ℓ} {P Q : A → Type κ} → ((a : A) → P a → Q a) → (l : List A) → All P l → All Q l
All-map f [] h = tt
All-map f (a ∷ rest) h = (f a h.0, All-map f rest h.1)

-- A writer of one value and then the others writes them one behind the other.
pub write_all_lem {ℓ} :
    {A : Type ℓ} (write : A → List ℕ) (all : List A → List ℕ)
    → all [] ≡ []
    → ((a : A) (rest : List A) → all (a ∷ rest) ≡ write a ++ all rest)
    → (l : List A) → all l ≡ write_all write l
write_all_lem write all e step [] = e
write_all_lem write all e step (a ∷ rest) =
    step a rest ∙ ap (λ t. write a ++ t) (write_all_lem write all e step rest)
