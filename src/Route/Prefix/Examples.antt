-- ===== src/Route/Prefix/Examples.antt =====
-- Runs of `Prefix`, and its theorems at concrete inputs.
use landscape_rill.Base.{ℕ, ◌+◌, ◌*◌, ◌^◌, ◌≤◌, ◌<◌, ◌≡◌, refl, true, false, none, some, arith, ◌↔◌}
use landscape_rill.Route.Prefix.{
  Prefix, IpAddr, ipv4, ipv6, IsCanonical, IsIp, new, matches, is_covered_by, contains,
  checked_contains, from_ip, significant,
}
use landscape_rill.Route.Prefix.Block.{matches_block, Within}
use landscape_rill.Route.Prefix.Cover.{is_covered_by_iff}

-- 172.20.0.0/14, 172.22.142.0/24 and 172.24.0.0/24.
abbrev aggregate : Prefix
aggregate = record { bits = 0xac14 * 2 ^ 112; len = 14; v4 = true }

abbrev inner : Prefix
inner = record { bits = 0xac168e * 2 ^ 104; len = 24; v4 = true }

abbrev outer : Prefix
outer = record { bits = 0xac1800 * 2 ^ 104; len = 24; v4 = true }

aggregate-IsCanonical : IsCanonical aggregate
aggregate-IsCanonical = record { short = omega arith; fits = omega arith; aligned = refl }

inner-IsCanonical : IsCanonical inner
inner-IsCanonical = record { short = omega arith; fits = omega arith; aligned = refl }

covers_inner : is_covered_by inner aggregate ≡ true
unfolding is_covered_by contains significant
covers_inner = refl

not_covers_outer : is_covered_by outer aggregate ≡ false
unfolding is_covered_by contains significant
not_covers_outer = refl

-- Dirty bits behind the length are cleared.
new_dirty : new (0xac14ffff * 2 ^ 96) 14 true ≡ some aggregate
unfolding new
new_dirty = refl

-- 172.23.255.255 matches the aggregate, 172.24.0.1 does not.
matches_last : matches aggregate (ipv4 0xac17ffff) ≡ true
unfolding matches contains significant from_ip new
matches_last = refl

matches_beyond : matches aggregate (ipv4 0xac180001) ≡ false
unfolding matches contains significant from_ip new
matches_beyond = refl

-- ::/0, ::, 2001:db8:: as an address, as a /128 and as a /64.
abbrev all_ipv6 : Prefix
all_ipv6 = record { bits = 0; len = 0; v4 = false }

abbrev doc : ℕ
doc = 0x20010db8 * 2 ^ 96

all_ipv6-IsCanonical : IsCanonical all_ipv6
all_ipv6-IsCanonical = record { short = omega arith; fits = omega arith; aligned = refl }

abbrev host : Prefix
host = record { bits = doc; len = 128; v4 = false }

host-IsCanonical : IsCanonical host
host-IsCanonical = record { short = omega arith; fits = omega arith; aligned = refl }

-- ::/0 matches no address but ::, and covers a /64 but not the addresses in it.
all_ipv6-matches :
    (matches all_ipv6 (ipv6 doc) ≡ false)
    × (matches all_ipv6 (ipv6 0) ≡ true)
    × (is_covered_by (record { bits = doc; len = 64; v4 = false }) all_ipv6 ≡ true)
    × (is_covered_by host all_ipv6 ≡ false)
unfolding matches is_covered_by contains significant from_ip new
all_ipv6-matches = (refl, refl, refl, refl)

not_contains : (checked_contains all_ipv6 host ≡ none) × (contains all_ipv6 host ≡ false)
unfolding checked_contains contains significant
not_contains = (refl, refl)

matches_block_example :
    (matches all_ipv6 (ipv6 doc) ≡ true) ↔ ((false ≡ false) × (0 ≤ doc) × (doc < 0 + 1))
matches_block_example = matches_block all_ipv6 (ipv6 doc) all_ipv6-IsCanonical (omega arith)

is_covered_by_iff_example : (is_covered_by inner aggregate ≡ true) ↔ (
    ((a : IpAddr) → IsIp a → Within inner a → Within aggregate a)
    × (Path ℕ 14 0 → Path ℕ 24 128 → Path ℕ (0xac168e * 2 ^ 104) 0))
is_covered_by_iff_example =
    is_covered_by_iff inner aggregate inner-IsCanonical aggregate-IsCanonical
