-- ===== src/Coord/Liveness/Expiry.antt =====
-- Which nodes a sweep takes offline.
use mathlib.Core.Path.{subst}
use landscape_rill.Base.{
  ℕ, ◌-◌, ◌≡◌, ◌<◌, refl, ap, ◌∙◌, ◌==◌, ==_iff, Bool, true, false, ◌&&◌, ◌||◌, not, Option, none,
  some, List, [], ◌∷◌, ◌++◌, if◌then◌else◌, Bool-cases, inl, inr, arith,
}
use landscape_rill.Base.Assoc.{lookup, IsMap, insert-IsMap}
use landscape_rill.Base.Bindings.{lookup-insert_same}
use landscape_rill.Control.Registry.{id_eq}
use landscape_rill.Coord.Liveness.{
  Liveness, holds, without, is_offline, last_seen_of, heartbeat, is_expired, expired, sweep,
}

or_new : (a b : Bool) → (a || (b && not a)) ≡ (a || b)
or_new true b = refl
or_new false true = refl
or_new false false = refl

and_not : (a : Bool) → (a && not true) ≡ false
and_not true = refl
and_not false = refl

number_same : (n : ℕ) → (n == n) ≡ true
number_same n = (==_iff n n).1 refl

-- The lease of a node has run out.
abbrev pub lapsed : ℕ → Option ℕ → Bool
lapsed now none = false
lapsed now (some seen) = is_expired now seen

holds-append : (id : ℕ) (xs ys : List ℕ) → holds id (xs ++ ys) ≡ (holds id xs || holds id ys)
holds-append id [] ys = refl
holds-append id (x ∷ xs) ys = ground (arith, holds-append id xs ys)

holds-without :
    (id other : ℕ) (xs : List ℕ) → holds id (without other xs) ≡ (holds id xs && not (other == id))
holds-without id other [] = refl
holds-without id other (x ∷ xs) = ground (arith, holds-without id other xs)

holds_head :
    (id j : ℕ) (test : Bool) (rest : List ℕ)
    → holds id (if test then j ∷ rest else rest) ≡ ((test && j == id) || holds id rest)
holds_head id j true rest = refl
holds_head id j false rest = refl

head_same : (a b : Bool) → ((a && b) && true || false) ≡ (a && b)
head_same true true = refl
head_same true false = refl
head_same false b = refl

head_other : (a b : Bool) → ((a && false) || b) ≡ b
head_other true b = refl
head_other false b = refl

holds-expired :
    (id now : ℕ) (offline : List ℕ) (m : List (ℕ × ℕ))
    → IsMap m
    → holds id (expired now offline m) ≡ (lapsed now (lookup id m) && not (holds id offline))
holds-expired id now offline [] h = refl
holds-expired id now offline ((j, seen) ∷ m) h =
    let rest = expired now offline m in
    let test = is_expired now seen && not (holds j offline) in
    let found = holds-expired id now offline m h.1 in
    holds_head id j test rest ∙ elim (Bool-cases (j == id)) [
      | inl same ↦
          let here : (j == id) ≡ true = same in
          let e : j ≡ id = (==_iff j id).0 same in
          let absent : lookup id m ≡ none = subst (λ n. lookup n m ≡ none) e h.0 in
          let none_left : holds id rest ≡ false =
            found ∙ ap (λ o. lapsed now o && not (holds id offline)) absent in
          rw (here, none_left, e) (head_same (is_expired now seen) (not (holds id offline)))
      | inr other ↦ rw other (head_other test (holds id rest) ∙ found)
    ]

-- Where no node is seen twice, a sweep takes offline exactly the nodes that were seen more than
-- sixty seconds ago, keeps the ones that were offline, and reports those that were not offline
-- before; the others stay as they are.
pub sweep-is_offline :
    (id now : ℕ) (l : Liveness)
    → IsMap l.last_seen
    → (is_offline id (sweep now l).0 ≡ (is_offline id l || lapsed now (last_seen_of id l)))
      × (holds id (sweep now l).1 ≡ (lapsed now (last_seen_of id l) && not (is_offline id l)))
unfolding sweep
sweep-is_offline id now l h =
    let found = holds-expired id now l.offline l.last_seen h in
    (
      holds-append id l.offline (expired now l.offline l.last_seen)
          ∙ ap (λ b. holds id l.offline || b) found
          ∙ or_new (holds id l.offline) (lapsed now (lookup id l.last_seen)),
      found,
    )

-- Where no node is seen twice, a sweep at most sixty seconds behind a heartbeat leaves the node
-- online; the answer of the heartbeat tells whether the node was offline.
pub heartbeat-sweep :
    (id seen now : ℕ) (l : Liveness)
    → IsMap l.last_seen
    → now - seen < 61
    → (is_offline id (sweep now (heartbeat id seen l).0).0 ≡ false)
      × ((heartbeat id seen l).1 ≡ is_offline id l)
unfolding heartbeat
heartbeat-sweep id seen now l h fresh =
    let beat = (heartbeat id seen l).0 in
    let online : is_offline id beat ≡ false =
      holds-without id id l.offline ∙ rw (number_same id) (and_not (holds id l.offline)) in
    let leased : lapsed now (last_seen_of id beat) ≡ false =
      ap (lapsed now) (lookup-insert_same id seen l.last_seen) ∙ ground (arith, fresh) in
    (
      (sweep-is_offline id now beat (insert-IsMap id seen l.last_seen h)).0 ∙ rw (online, leased),
      refl,
    )
