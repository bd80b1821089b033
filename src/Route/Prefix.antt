-- ===== src/Route/Prefix.antt =====
-- rill-core/src/route/mod.rs, `struct Prefix`, and the `std::net::IpAddr` that it is matched with.
-- The sixteen bytes `bits` are held as the u128 that `u128::from_be_bytes` reads from them, which
-- determines them (Base/Bytes); `Base.Bytes.be_bytes 16` gives the bytes where code slices them.
pub mod Canonical
pub mod Block
pub mod Cover
pub mod Checked
pub mod Parse
mod Examples
use landscape_rill.Base.{
  ℕ, ◌+◌, ◌-◌, ◌*◌, ◌/◌, ◌%◌, ◌^◌, ◌≤◌, ◌<◌, ◌≡◌, Bool, true, false, ◌&&◌, ◌||◌, not, Option, none,
  some, ltb, ◌==◌, if◌then◌else◌,
}

pub record Prefix : Type 0 where
  pub bits : ℕ
  pub len : ℕ
  pub v4 : Bool

-- An IPv4 address is a u32 and an IPv6 address a u128, by their big-endian octets.
pub data IpAddr : Type 0 where
  ipv4 : ℕ → IpAddr
  ipv6 : ℕ → IpAddr

abbrev pub bool_eq : Bool → Bool → Bool
bool_eq true b = b
bool_eq false b = not b

-- `==` of the derived `PartialEq`.
unfoldable pub prefix_eq : Prefix → Prefix → Bool
prefix_eq p q = p.bits == q.bits && p.len == q.len && bool_eq p.v4 q.v4

-- The longest prefix of an address family.
abbrev pub max_len : Bool → ℕ
max_len v4 = if v4 then 32 else 128

-- `x >> s` and `x << s` on a u128, as a release build computes them: without overflow checks only
-- the low seven bits of the shift amount count. `checked_contains` has the build with the checks.
abbrev pub shr128 : ℕ → ℕ → ℕ
shr128 x s = x / 2 ^ (s % 128)

abbrev pub shl128 : ℕ → ℕ → ℕ
shl128 x s = x * 2 ^ (s % 128) % 2 ^ 128

-- `Prefix::new`.
unfoldable pub new : ℕ → ℕ → Bool → Option Prefix
new bits len v4 =
    if ltb (max_len v4) len
    then none
    else if len == 0
    then some (record { bits = 0; len = len; v4 = v4 })
    else some (record { bits = shl128 (shr128 bits (128 - len)) (128 - len); len = len; v4 = v4 })

-- `Option::expect`. No caller reaches `none`: `Canonical.from_ip_lem`.
abbrev pub expect : Option Prefix → Prefix
expect none = record { bits = 0; len = 0; v4 = true }
expect (some p) = p

-- The octets of the address as sixteen bytes: those of an IPv4 address come first, then zeros.
abbrev pub ip_bits : IpAddr → ℕ
ip_bits (ipv4 a) = a * 2 ^ 96
ip_bits (ipv6 a) = a

abbrev pub is_ipv4 : IpAddr → Bool
is_ipv4 (ipv4 a) = true
is_ipv4 (ipv6 a) = false

-- `Prefix::from_ip`.
unfoldable pub from_ip : IpAddr → Prefix
unfolding new
from_ip (ipv4 a) = expect (new (a * 2 ^ 96) 32 true)
from_ip (ipv6 a) = expect (new a 128 false)

-- `Prefix::significant`.
unfoldable pub significant : Prefix → ℕ
significant p = if p.len == 0 then 0 else shr128 p.bits (128 - p.len)

-- `Prefix::contains`.
unfoldable pub contains : Prefix → Prefix → Bool
contains p other =
    if not (bool_eq p.v4 other.v4) || ltb other.len p.len
    then false
    else shr128 (significant other) (other.len - p.len) == significant p

-- `Prefix::contains` of a build with overflow checks, the panic of a shift by 128 or more as `none`.
-- The shift of `significant` is below 128 for every length from 1.
unfoldable pub checked_contains : Prefix → Prefix → Option Bool
checked_contains p other =
    if not (bool_eq p.v4 other.v4) || ltb other.len p.len
    then some false
    else if ltb (other.len - p.len) 128
    then some (shr128 (significant other) (other.len - p.len) == significant p)
    else none

-- `Prefix::matches`.
unfoldable pub matches : Prefix → IpAddr → Bool
matches p addr = contains p (from_ip addr)

-- `Prefix::is_covered_by`.
unfoldable pub is_covered_by : Prefix → Prefix → Bool
is_covered_by p other = contains other p

-- What `new` establishes: the family's length limit, and zeros behind the first `len` bits.
pub record IsCanonical (p : Prefix) : Type 0 where
  pub short : p.len ≤ max_len p.v4
  pub fits : p.bits < 2 ^ 128
  pub aligned : p.bits % 2 ^ (128 - p.len) ≡ 0

-- A value of the Rust type `IpAddr`.
abbrev pub IsIp : IpAddr → Type 0
IsIp (ipv4 a) = a < 2 ^ 32
IsIp (ipv6 a) = a < 2 ^ 128
