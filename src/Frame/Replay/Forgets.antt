-- ===== src/Frame/Replay/Forgets.antt =====
-- What the window forgets when it advances.
use landscape_rill.Base.{
  ℕ, zero, suc, ◌+◌, ◌-◌, ◌*◌, ◌^◌, ◌/◌, ◌%◌, ◌≡◌, ◌<◌, ◌≤◌, refl, ap, ◌∙◌, Bool, true, false, [],
  ◌∷◌, ◌++◌, get_or, replicate, ltb, leb, Bool-cases, inl, inr, arith,
}
use landscape_rill.Base.Pow.{two_pow_pos, two_pow_split, div-eq_iff}
use landscape_rill.Frame.Replay.{ReplayWindow, has_bit, advance, mark, check_and_mark}
use landscape_rill.Frame.Replay.Again.{mark-free, check_and_mark-around}

get_or-zeros : (n i v : ℕ) → i < n → get_or (replicate n 0 ++ (v ∷ [])) i 0 ≡ 0
get_or-zeros zero i v h = ground arith
get_or-zeros (suc n) zero v h = refl
get_or-zeros (suc n) (suc i) v h = get_or-zeros n i v (omega (arith, h))

has_bit-zero : (b : ℕ) → has_bit 0 b ≡ false
has_bit-zero b =
    let none_left : 0 / 2 ^ b ≡ 0 =
      (div-eq_iff 0 0 (2 ^ b) (two_pow_pos b)).1 (omega arith, omega (arith, two_pow_pos b)) in
    rw none_left refl

-- The top bit is no lower one.
has_bit-top : (b : ℕ) → b < 63 → has_bit (2 ^ 63) b ≡ false
has_bit-top b h =
    let split : 2 ^ 63 ≡ 2 ^ b * 2 ^ (63 - b) = two_pow_split b 63 (omega (arith, h)) in
    let even : 2 ^ (63 - b) ≡ 2 ^ 1 * 2 ^ (63 - b - 1) =
      two_pow_split 1 (63 - b) (omega (arith, h)) in
    let quotient : 2 ^ 63 / 2 ^ b ≡ 2 ^ (63 - b) =
      (div-eq_iff (2 ^ 63) (2 ^ (63 - b)) (2 ^ b) (two_pow_pos b)).1
        (grind (arith, split), grind (arith, split, two_pow_pos b)) in
    rw quotient (rw even (ground arith))

-- The window behind an advance to `seq` has the mark of `seq` alone, in its last slot.
only : ℕ → ReplayWindow
only base = record { base = base; bitmap = replicate 15 0 ++ (2 ^ 63 ∷ []) }

abbrev zeros : ℕ → ReplayWindow
zeros base = record { base = base; bitmap = replicate 16 0 }

advance-zeros :
    (w : ReplayWindow) (seq : ℕ) → w.base + 1024 ≤ seq → advance w seq ≡ zeros (seq - 1023)
unfolding advance
advance-zeros w seq h =
    let far : leb (w.base + 1024) seq ≡ true = ground arith in
    rw far (ap (λ (b : ℕ). zeros b) (omega (arith, h)))

check_and_mark-advance :
    (w : ReplayWindow) (seq : ℕ)
    → w.base + 1024 ≤ seq
    → (check_and_mark w seq).0 ≡ only (seq - 1023)
unfolding check_and_mark mark only
check_and_mark-advance w seq h =
    let room : advance w seq ≡ zeros (seq - 1023) = advance-zeros w seq h in
    let fresh : ltb seq w.base ≡ false = ground arith in
    let slot : seq - (seq - 1023) ≡ 1023 = omega (arith, h) in
    rw fresh (
      ap (λ (v : ReplayWindow). (mark v (seq - v.base)).0) room
      ∙ ap (λ (n : ℕ). (mark (zeros (seq - 1023)) n).0) slot)

only-free : (base slot : ℕ) → slot < 1023 → (mark (only base) slot).1 ≡ true
unfolding only
only-free base slot h = elim (Bool-cases (ltb (slot / 64) 15)) [
  | inl low ↦
      let word = get_or-zeros 15 (slot / 64) (2 ^ 63) (ground arith) in
      rw (
        mark-free (only base) slot
          (ap (λ x. has_bit x (slot % 64)) word ∙ has_bit-zero (slot % 64)))
  | inr high ↦
      let last : slot / 64 ≡ 15 = ground arith in
      let word : get_or (only base).bitmap (slot / 64) 0 ≡ 2 ^ 63 =
        ap (λ i. get_or (only base).bitmap i 0) last in
      rw (
        mark-free (only base) slot
          (ap (λ x. has_bit x (slot % 64)) word ∙ has_bit-top (slot % 64) (omega (arith, h, last))))
]

-- After the check of a number that makes the window advance, the check of every lower number that
-- is still in the window accepts it, whatever the window had accepted before.
pub check_and_mark-forgets :
    (w : ReplayWindow) (seq older : ℕ)
    → w.base + 1024 ≤ seq
    → older < seq
    → seq < older + 1024
    → (check_and_mark (check_and_mark w seq).0 older).1 ≡ true
unfolding only
check_and_mark-forgets w seq older far below near =
    ap (λ v. (check_and_mark v older).1) (check_and_mark-advance w seq far)
    ∙ ap (λ (r : ReplayWindow × Bool). r.1)
        (check_and_mark-around (only (seq - 1023)) older (omega (arith, far, below, near))
          (omega (arith, far, below, near)))
    ∙ only-free (seq - 1023) (older - (seq - 1023)) (omega (arith, far, below, near))
