-- ===== src/Route/Prefix/Block.antt =====
-- What `Prefix::matches` and `Prefix::contains` test, as arithmetic on blocks of addresses. The one
-- shift whose amount the mask of a release build changes is 128: ::/0 against an IPv6 /128.
use landscape_rill.Base.{
  ℕ, ◌+◌, ◌-◌, ◌*◌, ◌/◌, ◌%◌, ◌^◌, ◌≤◌, ◌<◌, ◌≡◌, refl, sym, ap, ◌∙◌, Bool, true, ◌&&◌, not, ◌==◌,
  if◌then◌else◌, arith, ◌↔◌, Bool-cases, inl, inr, ==_iff,
}
use landscape_rill.Base.Pow.{two_pow_pos, pow-add, div-eq_iff}
use landscape_rill.Route.Prefix.{
  Prefix, IpAddr, max_len, from_ip, IsCanonical, IsIp, ip_bits, is_ipv4, shr128, significant,
  contains, matches,
}
use landscape_rill.Route.Prefix.Canonical.{from_ip_lem, from_ip-IsCanonical, shr128_lem}
use native.Mathlib.Decide.{dec_lt}
use native.Mathlib.Nat.{div-div-eq-div-mul, div-add-mod'}

-- How many u128 values share the first `len` bits.
abbrev pub block_size : ℕ → ℕ
block_size len = 2 ^ (128 - len)

-- How many values from its bits on a prefix matches: its block, but for ::/0 one value.
abbrev pub reach : Prefix → ℕ
reach p = if p.len == 0 && not p.v4 then 1 else block_size p.len

-- An address lies in the block of a prefix.
abbrev pub Within : Prefix → IpAddr → Type 0
Within p a = (p.v4 ≡ is_ipv4 a) × (p.bits ≤ ip_bits a) × (ip_bits a < p.bits + block_size p.len)

len_le : (p : Prefix) → IsCanonical p → p.len ≤ 128
len_le p c = ground (arith, c.short)

-- The significant bits, at a prefix length that the prefix itself reaches.
significant_shift :
    (q : Prefix) (len : ℕ)
    → IsCanonical q
    → len ≤ q.len
    → significant q / 2 ^ (q.len - len) ≡ q.bits / block_size len
unfolding significant
significant_shift q len c h = elim (Bool-cases (q.len == 0)) [
  | inl e ↦
      let z : q.len ≡ 0 = (==_iff q.len 0).0 e in
      let l : len ≡ 0 = omega arith in rw (e, l, z) (omega (arith, c.fits))
  | inr e ↦
      let k : 128 - len ≡ (128 - q.len) + (q.len - len) = omega (arith, len_le q c) in
      let low : 128 - q.len < 128 = ground (arith, e) in
      rw e (
        ap (λ (t : ℕ). t / 2 ^ (q.len - len)) (shr128_lem q.bits (128 - q.len) low)
        ∙ div-div-eq-div-mul q.bits (2 ^ (128 - q.len)) (2 ^ (q.len - len))
        ∙ ap (λ (t : ℕ). q.bits / t)
            (sym (ap (λ (t : ℕ). 2 ^ t) k ∙ pow-add 2 (128 - q.len) (q.len - len))))
]

significant_lem : (p : Prefix) → IsCanonical p → significant p ≡ p.bits / block_size p.len
significant_lem p c =
    let e : 0 ≡ p.len - p.len = omega arith in
    let whole : significant p ≡ significant p / 2 ^ 0 = omega arith in
    whole ∙ ap (λ (t : ℕ). significant p / 2 ^ t) e ∙ significant_shift p p.len c (omega arith)

-- The shift of `contains` where its amount is below 128.
shift_short :
    (p q : Prefix)
    → IsCanonical q
    → p.len ≤ q.len
    → q.len - p.len < 128
    → shr128 (significant q) (q.len - p.len) ≡ q.bits / block_size p.len
shift_short p q d h k = shr128_lem (significant q) (q.len - p.len) k ∙ significant_shift q p.len d h

-- The shift by 128, which the mask turns into none: all bits of the longer prefix are left.
shift_long :
    (p q : Prefix)
    → IsCanonical q
    → p.len ≡ 0
    → q.len ≡ 128
    → shr128 (significant q) (q.len - p.len) ≡ q.bits
shift_long p q d z l =
    let none_left : (q.len - p.len) % 128 ≡ 0 = omega arith in
    let whole : significant q / 2 ^ 0 ≡ significant q = omega arith in
    let one : block_size q.len ≡ 1 = ap block_size l in
    ap (λ (t : ℕ). significant q / 2 ^ t) none_left
    ∙ whole
    ∙ significant_lem q d
    ∙ ap (λ (t : ℕ). q.bits / t) one
    ∙ omega arith

-- The one block of a prefix of length 0.
whole_block : (x : ℕ) (p : Prefix) → x < 2 ^ 128 → p.len ≡ 0 → x / block_size p.len ≡ 0
whole_block x p h z = ap (λ (t : ℕ). x / block_size t) z ∙ omega (arith, h)

aligned_zero : (p : Prefix) → IsCanonical p → p.len ≡ 0 → p.bits ≡ 0
aligned_zero p c z =
    let a = ap (λ (t : ℕ). p.bits % 2 ^ (128 - t)) (sym z) ∙ c.aligned in omega (arith, a, c.fits)

-- `contains`: same family, no shorter, and equal on the first `len` bits; and against an IPv6 /128
-- ::/0 contains the prefix of :: only.
pub contains_iff :
    (p q : Prefix)
    → IsCanonical p
    → IsCanonical q
    → (contains p q ≡ true) ↔ (
        (p.v4 ≡ q.v4)
        × (p.len ≤ q.len)
        × (q.bits / block_size p.len ≡ p.bits / block_size p.len)
        × (p.len ≡ 0 → q.len ≡ 128 → q.bits ≡ 0))
unfolding contains
contains_iff p q c d = elim (dec_lt (q.len - p.len) 128) [
  | yes k ↦ ground (arith, shift_short p q d, significant_lem p c)
  | no k ↦
      let z : p.len ≡ 0 = omega (arith, len_le q d) in
      let l : q.len ≡ 128 = omega (arith, len_le q d) in
      ground (
        arith,
        shift_long p q d z l,
        significant_lem p c,
        whole_block p.bits p c.fits z,
        whole_block q.bits p d.fits z,
      )
]

-- The block of a prefix starts at `bits`.
pub block_base :
    (p : Prefix) → IsCanonical p → p.bits / block_size p.len * block_size p.len ≡ p.bits
block_base p c = omega (arith, div-add-mod' p.bits (block_size p.len), c.aligned)

-- `contains` as an interval test on the first address of `q`.
pub contains_block :
    (p q : Prefix)
    → IsCanonical p
    → IsCanonical q
    → (contains p q ≡ true) ↔ (
        (p.v4 ≡ q.v4)
        × (p.len ≤ q.len)
        × (p.bits ≤ q.bits)
        × (q.bits < p.bits + block_size p.len)
        × (p.len ≡ 0 → q.len ≡ 128 → q.bits ≡ 0))
contains_block p q c d =
    let test = contains_iff p q c d in
    let base = block_base p c in
    let block =
      div-eq_iff q.bits (p.bits / block_size p.len) (block_size p.len)
        (two_pow_pos (128 - p.len)) in
    (
      λ h.
          let (family, longer, same, zero) = test.0 h in
          let (low, high) = block.0 same in
          (family, longer, omega (arith, low, base), omega (arith, high, base), zero),
      λ h. test.1 (h.0, h.1, block.1 (omega (arith, h.2, base), omega (arith, h.3, base)), h.4),
    )

-- An address in the block shares the first `len` bits.
pub Within-iff :
    (p : Prefix) (a : IpAddr)
    → IsCanonical p
    → Within p a ↔ ((p.v4 ≡ is_ipv4 a) × (ip_bits a / block_size p.len ≡ p.bits / block_size p.len))
Within-iff p a c =
    let base = block_base p c in
    let block =
      div-eq_iff (ip_bits a) (p.bits / block_size p.len) (block_size p.len)
        (two_pow_pos (128 - p.len)) in
    (
      λ b. (b.0, block.1 (omega (arith, b.1, base), omega (arith, b.2, base))),
      λ h.
          let (low, high) = block.0 h.1 in
          (h.0, omega (arith, low, base), omega (arith, high, base)),
    )

-- What the values from `bits` on that a prefix matches are, for an address of its family.
reach_iff :
    (p : Prefix) (x len : ℕ) (v4 : Bool)
    → IsCanonical p
    → p.v4 ≡ v4
    → len ≡ max_len v4
    → ((p.bits ≤ x) × (x < p.bits + block_size p.len) × (p.len ≡ 0 → len ≡ 128 → x ≡ 0))
      ↔ ((p.bits ≤ x) × (x < p.bits + reach p))
reach_iff p x len v4 c f m = elim (Bool-cases (p.len == 0)) [
  | inl e ↦
      let z : p.len ≡ 0 = (==_iff p.len 0).0 e in
      let pos = two_pow_pos (128 - p.len) in ground (arith, aligned_zero p c z, pos)
  | inr e ↦ ground arith
]

-- An address matches a prefix, in a release build, exactly if it is of the same family and lies in
-- the block of 2 ^ (128 - len) values that starts at the prefix's bits; but ::/0 matches :: only.
pub matches_block :
    (p : Prefix) (a : IpAddr)
    → IsCanonical p
    → IsIp a
    → (matches p a ≡ true)
      ↔ ((p.v4 ≡ is_ipv4 a) × (p.bits ≤ ip_bits a) × (ip_bits a < p.bits + reach p))
unfolding matches
matches_block p a c h =
    let test = rw (from_ip_lem a h) at (contains_block p (from_ip a) c (from_ip-IsCanonical a h)) in
    let range = λ (e : p.v4 ≡ is_ipv4 a).
      reach_iff p (ip_bits a) (max_len (is_ipv4 a)) (is_ipv4 a) c e refl in
    rw (from_ip_lem a h) (
      λ m.
          let (family, _, low, high, zero) = test.0 m in
          let (low', high') = (range family).0 (low, high, zero) in (family, low', high'),
      λ b.
          let (low, high, zero) = (range b.0).1 (b.1, b.2) in
          test.1 (b.0, rw (← b.0) c.short, low, high, zero),
    )
