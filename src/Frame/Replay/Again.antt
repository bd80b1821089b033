-- ===== src/Frame/Replay/Again.antt =====
-- What the window does with a number that it has seen.
use landscape_rill.Base.{
  ℕ, zero, suc, ◌+◌, ◌-◌, ◌^◌, ◌/◌, ◌%◌, ◌≡◌, ◌<◌, ◌≤◌, refl, ap, ◌∙◌, Bool, true, false, List, [],
  ◌∷◌, length, get_or, set, ltb, leb, Bool-cases, inl, inr, arith,
}
use native.Mathlib.Nat.{add-div_right}
use landscape_rill.Base.Pow.{two_pow_pos}
use landscape_rill.Frame.Replay.{ReplayWindow, has_bit, advance, mark, check_and_mark}

get_or-set : (l : List ℕ) (i v : ℕ) → i < length l → get_or (set l i v) i 0 ≡ v
get_or-set [] i v h = ground arith
get_or-set (x ∷ l) zero v h = refl
get_or-set (x ∷ l) (suc i) v h = get_or-set l i v (omega (arith, h))

length-set : (l : List ℕ) (i v : ℕ) → length (set l i v) ≡ length l
length-set [] i v = refl
length-set (x ∷ l) zero v = refl
length-set (x ∷ l) (suc i) v = ap suc (length-set l i v)

has_bit-add : (word b : ℕ) → has_bit word b ≡ false → has_bit (word + 2 ^ b) b ≡ true
has_bit-add word b h =
    let one_more : (word + 2 ^ b) / 2 ^ b ≡ word / 2 ^ b + 1 = add-div_right word (two_pow_pos b) in
    rw one_more (ground arith)

pub mark-taken :
    (w : ReplayWindow) (slot : ℕ)
    → has_bit (get_or w.bitmap (slot / 64) 0) (slot % 64) ≡ true
    → mark w slot ≡ (w, false)
unfolding mark
mark-taken w slot h = rw h

-- The window with the mark of a slot.
abbrev pub marked : ReplayWindow → ℕ → ReplayWindow
marked w slot = record w {
  bitmap = set w.bitmap (slot / 64) (get_or w.bitmap (slot / 64) 0 + 2 ^ (slot % 64));
}

pub mark-free :
    (w : ReplayWindow) (slot : ℕ)
    → has_bit (get_or w.bitmap (slot / 64) 0) (slot % 64) ≡ false
    → mark w slot ≡ (marked w slot, true)
unfolding mark
mark-free w slot h = rw h

-- A slot that was just tested is taken.
mark-mark :
    (w : ReplayWindow) (slot : ℕ)
    → length w.bitmap ≡ 16
    → slot < 1024
    → (mark (mark w slot).0 slot).1 ≡ false
mark-mark w slot l s = elim (Bool-cases (has_bit (get_or w.bitmap (slot / 64) 0) (slot % 64))) [
  | inl h ↦ rw (mark-taken w slot h) (ap (λ (r : ReplayWindow × Bool). r.1) (mark-taken w slot h))
  | inr h ↦
      let word = get_or w.bitmap (slot / 64) 0 in
      let written =
        get_or-set w.bitmap (slot / 64) (word + 2 ^ (slot % 64)) (omega (arith, l, s)) in
      let taken = ap (λ x. has_bit x (slot % 64)) written ∙ has_bit-add word (slot % 64) h in
      rw (mark-free w slot h)
        (ap (λ (r : ReplayWindow × Bool). r.1) (mark-taken (marked w slot) slot taken))
]

mark-base : (w : ReplayWindow) (slot : ℕ) → (mark w slot).0.base ≡ w.base
mark-base w slot = elim (Bool-cases (has_bit (get_or w.bitmap (slot / 64) 0) (slot % 64))) [
  | inl h ↦ rw (mark-taken w slot h)
  | inr h ↦ rw (mark-free w slot h)
]

-- The window that has room for a number is around it.
record IsAround (v : ReplayWindow) (seq : ℕ) : Type 0 where
  words : length v.bitmap ≡ 16
  low : v.base ≤ seq
  high : seq < v.base + 1024

advance-IsAround :
    (w : ReplayWindow) (seq : ℕ)
    → length w.bitmap ≡ 16
    → w.base ≤ seq
    → IsAround (advance w seq) seq
unfolding advance
advance-IsAround w seq l h = elim (Bool-cases (leb (w.base + 1024) seq)) [
  | inl far ↦ rw far (record { words = refl; low = ground arith; high = ground arith })
  | inr near ↦ rw near (record { words = l; low = h; high = ground arith })
]

-- A window around a number tests its slot.
pub check_and_mark-around :
    (v : ReplayWindow) (seq : ℕ)
    → v.base ≤ seq
    → seq < v.base + 1024
    → check_and_mark v seq ≡ mark v (seq - v.base)
unfolding check_and_mark advance
check_and_mark-around v seq low high =
    let here : leb (v.base + 1024) seq ≡ false = ground arith in
    let fresh : ltb seq v.base ≡ false = ground arith in rw (here, fresh)

-- A number that was just checked is refused, whether it was accepted or refused then.
pub check_and_mark-again :
    (w : ReplayWindow) (seq : ℕ)
    → length w.bitmap ≡ 16
    → (check_and_mark (check_and_mark w seq).0 seq).1 ≡ false
unfolding check_and_mark
check_and_mark-again w seq l = elim (Bool-cases (ltb seq w.base)) [
  | inl old ↦ rw (old, old)
  | inr fresh ↦
      let v = advance w seq in
      let around = advance-IsAround w seq l (ground arith) in
      let base = mark-base v (seq - v.base) in
      let slot =
        check_and_mark-around (mark v (seq - v.base)).0 seq (omega (arith, base, around.low))
          (omega (arith, base, around.high)) in
      rw fresh (
        ap (λ (r : ReplayWindow × Bool). r.1) slot
        ∙ ap (λ (b : ℕ). (mark (mark v (seq - v.base)).0 (seq - b)).1) base
        ∙ mark-mark v (seq - v.base) around.words (omega (arith, around.low, around.high)))
]
