-- ===== src/Route/Prefix/Cover.antt =====
-- `Prefix::is_covered_by` against sets of addresses: the whitelist and bogon checks rest on it.
use landscape_rill.Base.{
  ℕ, suc, ◌+◌, ◌-◌, ◌*◌, ◌/◌, ◌^◌, ◌≤◌, ◌<◌, ◌≡◌, refl, sym, ap, ◌∙◌, Bool, true, false,
  if◌then◌else◌, arith, ◌↔◌,
}
use landscape_rill.Base.Pow.{two_pow_pos, two_pow_split, two_pow_mono, pow-add}
use landscape_rill.Route.Prefix.{
  Prefix, IpAddr, ipv4, ipv6, max_len, IsCanonical, IsIp, ip_bits, is_ipv4, is_covered_by,
}
use landscape_rill.Route.Prefix.Block.{
  block_size, Within, block_base, contains_iff, contains_block, Within-iff,
}
use native.Mathlib.Decide.{dec_lt}
use native.Mathlib.Nat.{
  div-div-eq-div-mul, lt_of_mul-lt-mul_right, lt_of_mul-lt-mul_left, mul-le-mul_right, pow-suc,
}

-- The distance of neighbouring addresses of a family, as u128 values.
abbrev unit : Bool → ℕ
unit v4 = if v4 then 2 ^ 96 else 1

block_end : (j b m : ℕ) → j * b < m * b → j * b + b ≤ m * b
block_end j b m h =
    let lt : suc j ≤ m = lt_of_mul-lt-mul_right b h in omega (arith, mul-le-mul_right b lt)

-- A block holds its first and its last address, which are `block_size len - unit v4` apart.
module _ (bits len : ℕ) where
  -- `n` is the number of addresses in the block and `u` their distance.
  module _ (u n w : ℕ) (size : block_size len ≡ u * n) (all : 2 ^ w ≡ 2 ^ len * n) where
    start_index :
        bits / block_size len * block_size len ≡ bits → u * (bits / block_size len * n) ≡ bits
    start_index base =
        let j = bits / block_size len in omega (arith, base, ap (λ (t : ℕ). j * t) size)

    end_index :
        bits / block_size len * block_size len ≡ bits
        → 0 < u
        → bits < u * 2 ^ w
        → bits / block_size len * n + n ≤ 2 ^ w
    end_index base pos fits =
        let j = bits / block_size len in
        let fits' : u * (j * n) < u * 2 ^ w = omega (arith, start_index base, fits) in
        rw all (block_end j n (2 ^ len) (rw all at (lt_of_mul-lt-mul_left u fits')))

ends :
    (bits len : ℕ) (v4 : Bool)
    → IsCanonical (record { bits = bits; len = len; v4 = v4 })
    → (first : IpAddr) × (last : IpAddr) × IsIp first
      × IsIp last
      × (is_ipv4 first ≡ v4)
      × (is_ipv4 last ≡ v4)
      × (ip_bits first ≡ bits)
      × (ip_bits last + unit v4 ≡ bits + block_size len)
ends bits len true c =
    let n = 2 ^ (32 - len) in
    let j = bits / block_size len in
    let base = block_base _ c in
    let d : 128 - len - 96 ≡ 32 - len = omega arith in
    let size : block_size len ≡ 2 ^ 96 * n =
      two_pow_split 96 (128 - len) (omega (arith, c.short)) ∙ ap (λ (t : ℕ). 2 ^ 96 * 2 ^ t) d in
    let all : 2 ^ 32 ≡ 2 ^ len * n = two_pow_split len 32 c.short in
    let lo = start_index bits len (2 ^ 96) n 32 size all base in
    let hi = end_index bits len (2 ^ 96) n 32 size all base (omega arith) c.fits in
    let pos = two_pow_pos (32 - len) in
    (
      ipv4 (j * n),
      ipv4 (j * n + n - 1),
      omega (arith, hi, pos),
      omega (arith, hi, pos),
      refl,
      refl,
      omega (arith, lo),
      omega (arith, lo, pos, size),
    )
ends bits len false c =
    let n = 2 ^ (128 - len) in
    let j = bits / block_size len in
    let base = block_base _ c in
    let size : block_size len ≡ 1 * n = omega arith in
    let all : 2 ^ 128 ≡ 2 ^ len * n = two_pow_split len 128 c.short in
    let hi = end_index bits len 1 n 128 size all base (omega arith) c.fits in
    let pos = two_pow_pos (128 - len) in
    (
      ipv6 bits,
      ipv6 (bits + n - 1),
      c.fits,
      omega (arith, hi, base, pos),
      refl,
      refl,
      refl,
      omega (arith, pos),
    )

-- A shorter prefix length groups the blocks of a longer one.
coarser :
    (x len len' : ℕ)
    → len ≤ len'
    → len' ≤ 128
    → x / block_size len ≡ x / block_size len' / 2 ^ (len' - len)
coarser x len len' h k =
    let e : 128 - len ≡ (128 - len') + (len' - len) = omega arith in
    ap (λ (t : ℕ). x / t) (ap (λ (t : ℕ). 2 ^ t) e ∙ pow-add 2 (128 - len') (len' - len))
    ∙ sym (div-div-eq-div-mul x (block_size len') (2 ^ (len' - len)))

len_le : (v4 : Bool) (len : ℕ) → len ≤ max_len v4 → len ≤ 128
len_le true len h = omega arith
len_le false len h = h

unit_le : (v4 : Bool) (len : ℕ) → len ≤ max_len v4 → unit v4 ≤ block_size len
unit_le true len h = two_pow_mono 96 (128 - len) (omega arith)
unit_le false len h = two_pow_pos (128 - len)

unit_pos : (v4 : Bool) → 0 < unit v4
unit_pos true = omega arith
unit_pos false = omega arith

double_block : (len len' : ℕ) → len < len' → len' ≤ 128 → 2 * block_size len' ≤ block_size len
double_block len len' h k =
    omega (arith, two_pow_mono (suc (128 - len')) (128 - len) (omega arith), pow-suc 2 (128 - len'))

module _ (q p : Prefix) (cq : IsCanonical q) (cp : IsCanonical p) where
  covered-Within : is_covered_by q p ≡ true → (a : IpAddr) → IsIp a → Within q a → Within p a
  unfolding is_covered_by
  covered-Within h a ip m =
      let (family, longer, same, zero) = (contains_iff p q cp cq).0 h in
      let (family', inside) = (Within-iff q a cq).0 m in
      let step = λ (x : ℕ). coarser x p.len q.len longer (len_le q.v4 q.len cq.short) in
      (Within-iff p a cp).1 (
        family ∙ family',
        step (ip_bits a)
            ∙ ap (λ (t : ℕ). t / 2 ^ (q.len - p.len)) inside
            ∙ sym (step q.bits)
            ∙ same,
      )

  covered-zero : is_covered_by q p ≡ true → p.len ≡ 0 → q.len ≡ 128 → q.bits ≡ 0
  unfolding is_covered_by
  covered-zero h = ((contains_iff p q cp cq).0 h).3

  -- The converse needs the first and the last address of `q` only.
  Within-covered :
      ((a : IpAddr) → IsIp a → Within q a → Within p a)
      → (p.len ≡ 0 → q.len ≡ 128 → q.bits ≡ 0)
      → is_covered_by q p ≡ true
  unfolding is_covered_by
  Within-covered all zero =
      let (first, last, ip, ip', family, family', low, high) = ends q.bits q.len q.v4 cq in
      let size = unit_le q.v4 q.len cq.short in
      let pos = unit_pos q.v4 in
      let in_first : Within q first = (sym family, omega arith, omega (arith, size, pos)) in
      let in_last : Within q last = (sym family', omega (arith, size), omega arith) in
      let (f, a, b) = all first ip in_first in
      let (f', a', b') = all last ip' in_last in
      let size' = rw (f ∙ family) at (unit_le p.v4 p.len cp.short) in
      let longer : p.len ≤ q.len = elim (dec_lt q.len p.len) [
        | yes l ↦
            absurd (omega (arith, double_block q.len p.len l (len_le p.v4 p.len cp.short), size'))
        | no l ↦ omega arith
      ] in
      (contains_block p q cp cq).1 (f ∙ family, longer, omega arith, omega arith, zero)

-- A prefix is covered by another, in a release build, exactly if every address in its block is in
-- the other's block; but of the IPv6 prefixes of length 128, ::/0 covers that of :: only.
pub is_covered_by_iff :
    (q p : Prefix)
    → IsCanonical q
    → IsCanonical p
    → (is_covered_by q p ≡ true)
      ↔ (((a : IpAddr) → IsIp a → Within q a → Within p a) × (p.len ≡ 0 → q.len ≡ 128 → q.bits ≡ 0))
is_covered_by_iff q p cq cp = (
  λ h. (covered-Within q p cq cp h, covered-zero q p cq cp h),
  λ b. Within-covered q p cq cp b.0 b.1,
)
