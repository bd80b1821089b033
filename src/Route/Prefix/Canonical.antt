-- ===== src/Route/Prefix/Canonical.antt =====
-- `Prefix::new` makes canonical prefixes, and `from_ip` never meets a rejected one.
use landscape_rill.Base.{
  ℕ, zero, suc, ◌-◌, ◌*◌, ◌/◌, ◌%◌, ◌^◌, ◌≤◌, ◌<◌, ◌≡◌, sym, ap, ◌∙◌, Bool, true, false, none, some,
  ltb, arith, ◌↔◌, Bool-cases, ltb→lt, inl, inr,
}
use mathlib.Core.Path.{subst}
use landscape_rill.Route.Prefix.{
  Prefix, IpAddr, ipv4, ipv6, max_len, new, from_ip, IsCanonical, IsIp, ip_bits, is_ipv4, shl128,
  shr128,
}
use native.Mathlib.Nat.{div-mul-le_self, mul-mod_left, mod-eq_of_lt, div-add-mod'}

-- Below 128 the mask on the shift amount changes nothing.
pub shr128_lem : (x s : ℕ) → s < 128 → shr128 x s ≡ x / 2 ^ s
shr128_lem x s h = ap (λ (t : ℕ). x / 2 ^ t) (mod-eq_of_lt h)

shl128_lem : (x s : ℕ) → s < 128 → shl128 x s ≡ x * 2 ^ s % 2 ^ 128
shl128_lem x s h = ap (λ (t : ℕ). x * 2 ^ t % 2 ^ 128) (mod-eq_of_lt h)

-- Clearing low bits stays in range, so the left shift loses nothing.
clear_low : (x s : ℕ) → s < 128 → x < 2 ^ 128 → shl128 (shr128 x s) s ≡ x / 2 ^ s * 2 ^ s
clear_low x s k h =
    shl128_lem (shr128 x s) s k
    ∙ ap (λ (t : ℕ). t * 2 ^ s % 2 ^ 128) (shr128_lem x s k)
    ∙ mod-eq_of_lt (omega (arith, div-mul-le_self x (2 ^ s)))

zero_block : (bits : ℕ) → bits < 2 ^ 128 → bits / 2 ^ 128 * 2 ^ 128 ≡ 0
zero_block bits h = omega arith

-- What `new` accepts.
pub new-eq_some :
    (bits len : ℕ) (v4 : Bool)
    → bits < 2 ^ 128
    → len ≤ max_len v4
    → new bits len v4
      ≡ some (record { bits = bits / 2 ^ (128 - len) * 2 ^ (128 - len); len = len; v4 = v4 })
unfolding new
new-eq_some bits zero true h k = ground (arith, zero_block bits h)
new-eq_some bits zero false h k = ground (arith, zero_block bits h)
new-eq_some bits (suc len) v4 h k = ground (arith, clear_low bits (128 - suc len) (omega arith) h)

pub new-eq_none : (bits len : ℕ) (v4 : Bool) → max_len v4 < len → new bits len v4 ≡ none
unfolding new
new-eq_none bits len v4 h = ground arith

-- Everything that `new` returns is canonical.
pub new-IsCanonical :
    (bits len : ℕ) (v4 : Bool) {p : Prefix}
    → bits < 2 ^ 128
    → new bits len v4 ≡ some p
    → IsCanonical p
new-IsCanonical bits len v4 {p} h e = elim (Bool-cases (ltb (max_len v4) len)) [
  | inl long ↦ cc (e, new-eq_none bits len v4 (ltb→lt _ _ long))
  | inr short ↦
      let k : len ≤ max_len v4 = ground (arith, short) in
      let q : Prefix = record {
        bits = bits / 2 ^ (128 - len) * 2 ^ (128 - len);
        len = len;
        v4 = v4;
      } in
      let same : some q ≡ some p = sym (new-eq_some bits len v4 h k) ∙ e in
      let made : IsCanonical q = record {
        short = k;
        fits = omega (arith, div-mul-le_self bits (2 ^ (128 - len)));
        aligned = mul-mod_left (bits / 2 ^ (128 - len)) (2 ^ (128 - len));
      } in
      let same_prefix : q ≡ p = cc same in subst IsCanonical same_prefix made
]

-- A canonical prefix is a fixed point of `new`: its parts rebuild it.
pub new_canonical : (p : Prefix) → IsCanonical p → new p.bits p.len p.v4 ≡ some p
new_canonical p c =
    let d = 2 ^ (128 - p.len) in
    let e : p.bits / d * d ≡ p.bits = omega (arith, div-add-mod' p.bits d, c.aligned) in
    new-eq_some p.bits p.len p.v4 c.fits c.short ∙ ap (λ (t : ℕ). some (record p { bits = t })) e

-- `new` rejects exactly the lengths above the limit of the family.
pub new_rejects_iff :
    (bits len : ℕ) (v4 : Bool) → bits < 2 ^ 128 → (new bits len v4 ≡ none) ↔ (max_len v4 < len)
unfolding new
new_rejects_iff bits len v4 h = ground arith

-- The host prefix of an address, without the clearing that changes nothing.
pub from_ip_lem :
    (a : IpAddr)
    → IsIp a
    → from_ip a ≡ record { bits = ip_bits a; len = max_len (is_ipv4 a); v4 = is_ipv4 a }
unfolding from_ip
from_ip_lem (ipv4 a) h = ap (λ (t : ℕ). record { bits = t; len = 32; v4 = true }) (omega arith)
from_ip_lem (ipv6 a) h = ap (λ (t : ℕ). record { bits = t; len = 128; v4 = false }) (omega arith)

pub from_ip-IsCanonical : (a : IpAddr) → IsIp a → IsCanonical (from_ip a)
from_ip-IsCanonical (ipv4 a) h = rw (from_ip_lem (ipv4 a) h) (omega arith)
from_ip-IsCanonical (ipv6 a) h = rw (from_ip_lem (ipv6 a) h) (omega arith)
