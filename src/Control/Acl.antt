-- ===== src/Control/Acl.antt =====
-- rill-core/src/control/acl.rs: the policy of a network, and the destination of an IP packet. The
-- first byte of a packet is below 256.
pub mod Verdict
use landscape_rill.Base.{
  ℕ, ◌/◌, ◌==◌, ==_iff, Bool, true, false, ◌&&◌, ◌||◌, not, Option, none, some, List, [], ◌∷◌,
  length, take, drop, any, ltb, if◌then◌else◌,
}
use landscape_rill.Base.Assoc.{lookup}
use landscape_rill.Base.Bytes.{be_value}
use landscape_rill.Base.Text.{Text}
use landscape_rill.Route.Prefix.{Prefix, IpAddr, ipv4, ipv6, matches}
use landscape_rill.Control.Registry.{text_Eq}

pub data AclSubject : Type 0 where
  any_node : AclSubject
  one_node : ℕ → AclSubject
  group : Text → AclSubject

pub data AclAction : Type 0 where
  allow : AclAction
  deny : AclAction

pub record AclRule : Type 0 where
  pub subjects : List AclSubject
  pub prefix : Prefix
  pub action : AclAction

pub record AclPolicy : Type 0 where
  pub enabled : Bool
  pub rules : List AclRule
  pub groups : List (Text × List ℕ)

abbrev pub is_member : ℕ → Option (List ℕ) → Bool
is_member from none = false
is_member from (some members) = any (λ m. m == from) members

abbrev pub subject_matches : AclPolicy → AclSubject → ℕ → Bool
subject_matches policy any_node from = true
subject_matches policy (one_node id) from = id == from
subject_matches policy (group name) from = is_member from (lookup name policy.groups)

abbrev pub is_allow : AclAction → Bool
is_allow allow = true
is_allow deny = false

-- The condition of a rule.
abbrev pub rule_matches : AclPolicy → ℕ → IpAddr → AclRule → Bool
rule_matches policy from dst rule =
    matches rule.prefix dst && any (λ s. subject_matches policy s from) rule.subjects

unfoldable pub allows_loop : AclPolicy → ℕ → IpAddr → List AclRule → Bool
allows_loop policy from dst [] = false
allows_loop policy from dst (rule ∷ rules) =
    let rest = allows_loop policy from dst rules in
    if rule_matches policy from dst rule then is_allow rule.action else rest

unfoldable pub allows : AclPolicy → ℕ → IpAddr → Bool
allows policy from dst =
    if not policy.enabled then true else allows_loop policy from dst policy.rules

-- `payload.get(lo..lo + n)`.
abbrev pub get_range : ℕ → ℕ → List ℕ → Option (List ℕ)
get_range lo n payload =
    let part = take n (drop lo payload) in if length part == n then some part else none

abbrev pub address : (ℕ → IpAddr) → Option (List ℕ) → Option IpAddr
address kind none = none
address kind (some octets) = some (kind (be_value octets))

unfoldable pub packet_dst : List ℕ → Option IpAddr
packet_dst [] = none
packet_dst (first ∷ rest) =
    if first / 16 == 4
    then address ipv4 (get_range 16 4 (first ∷ rest))
    else if first / 16 == 6
    then address ipv6 (get_range 24 16 (first ∷ rest))
    else none

abbrev pub packet_verdict : AclPolicy → ℕ → Option IpAddr → Bool
packet_verdict policy from none = false
packet_verdict policy from (some dst) = allows policy from dst

unfoldable pub allows_packet : AclPolicy → ℕ → List ℕ → Bool
allows_packet policy from payload =
    if not policy.enabled then true else packet_verdict policy from (packet_dst payload)
