-- ===== src/Control/Acl/Verdict.antt =====
-- The first rule that matches decides.
use landscape_rill.Base.{
  ℕ, ◌+◌, ◌/◌, ◌≤◌, ◌<◌, ◌==◌, ==_iff, ◌≡◌, ◌↔◌, refl, sym, ap, ◌∙◌, true, false, not, none, some,
  List, [], ◌∷◌, ◌++◌, All, length, length-take, length-drop, take, drop, if◌then◌else◌, Bool-cases,
  Option-cases, inl, inr, arith,
}
use landscape_rill.Base.Bytes.{be_value}
use landscape_rill.Route.Prefix.{IpAddr, ipv4, ipv6}
use landscape_rill.Control.Acl.{
  AclAction, allow, deny, AclRule, AclPolicy, is_allow, rule_matches, allows_loop, allows,
  get_range, address, packet_dst, packet_verdict, allows_packet,
}

-- A rule that allows and matches, behind rules that do not match.
pub record Permits (policy : AclPolicy) (from : ℕ) (dst : IpAddr) (rules : List AclRule)
    : Type 0 where
  pub earlier : List AclRule
  pub rule : AclRule
  pub later : List AclRule
  pub whole : rules ≡ earlier ++ (rule ∷ later)
  pub passed : All (λ r. rule_matches policy from dst r ≡ false) earlier
  pub hit : rule_matches policy from dst rule ≡ true
  pub allowed : rule.action ≡ allow

is_allow_iff : (a : AclAction) → (is_allow a ≡ true) ↔ (a ≡ allow)
is_allow_iff allow = (λ h. refl, λ h. refl)
is_allow_iff deny = (λ h. cc, λ h. cc)

module _ (policy : AclPolicy) (from : ℕ) (dst : IpAddr) where
  loop-Permits :
      (rules : List AclRule)
      → allows_loop policy from dst rules ≡ true
      → Permits policy from dst rules
  unfolding allows_loop
  loop-Permits [] h = cc
  loop-Permits (r ∷ rules) h = elim (Bool-cases (rule_matches policy from dst r)) [
    | inl hit ↦
        let verdict : allows_loop policy from dst (r ∷ rules) ≡ is_allow r.action = rw hit in
        record {
          earlier = [];
          rule = r;
          later = rules;
          whole = refl;
          passed = tt;
          hit = hit;
          allowed = (is_allow_iff r.action).0 (sym verdict ∙ h);
        }
    | inr miss ↦
        let next : allows_loop policy from dst (r ∷ rules) ≡ allows_loop policy from dst rules =
          rw miss in
        let p = loop-Permits rules (sym next ∙ h) in
        record {
          earlier = r ∷ p.earlier;
          rule = p.rule;
          later = p.later;
          whole = ap (λ l. r ∷ l) p.whole;
          passed = (miss, p.passed);
          hit = p.hit;
          allowed = p.allowed;
        }
  ]

  behind_misses :
      (earlier : List AclRule) (rule : AclRule) (later : List AclRule)
      → All (λ r. rule_matches policy from dst r ≡ false) earlier
      → rule_matches policy from dst rule ≡ true
      → allows_loop policy from dst (earlier ++ (rule ∷ later)) ≡ is_allow rule.action
  unfolding allows_loop
  behind_misses [] rule later passed hit = rw hit
  behind_misses (r ∷ earlier) rule later passed hit =
      rw passed.0 (behind_misses earlier rule later passed.1 hit)

  loop_iff :
      (rules : List AclRule)
      → (allows_loop policy from dst rules ≡ true) ↔ Permits policy from dst rules
  loop_iff rules = (
    loop-Permits rules,
    λ p.
        ap (allows_loop policy from dst) p.whole
        ∙ behind_misses p.earlier p.rule p.later p.passed p.hit
        ∙ (is_allow_iff p.rule.action).1 p.allowed,
  )

  pub allows_iff :
      policy.enabled ≡ true → (allows policy from dst ≡ true) ↔ Permits policy from dst policy.rules
  unfolding allows
  allows_iff on =
      let e : allows policy from dst ≡ allows_loop policy from dst policy.rules =
        ap (λ b. if not b then true else allows_loop policy from dst policy.rules) on in
      let (there, back) = loop_iff policy.rules in (λ h. there (sym e ∙ h), λ p. e ∙ back p)

-- A packet with a whole destination field: of version 4 in the bytes 16 to 19, of version 6 in the
-- bytes 24 to 39.
pub data IsPacketTo (payload : List ℕ) (dst : IpAddr) : Type 0 where
  version_four :
      (first : ℕ) (rest : List ℕ)
      → payload ≡ first ∷ rest
      → first / 16 ≡ 4
      → 20 ≤ length payload
      → dst ≡ ipv4 (be_value (take 4 (drop 16 payload)))
      → IsPacketTo payload dst
  version_six :
      (first : ℕ) (rest : List ℕ)
      → payload ≡ first ∷ rest
      → first / 16 ≡ 6
      → 40 ≤ length payload
      → dst ≡ ipv6 (be_value (take 16 (drop 24 payload)))
      → IsPacketTo payload dst

get_range_long :
    (lo n : ℕ) (payload : List ℕ)
    → lo + n ≤ length payload
    → get_range lo n payload ≡ some (take n (drop lo payload))
get_range_long lo n payload h =
    let size : (length (take n (drop lo payload)) == n) ≡ true =
      ground (arith, length-take n (drop lo payload), length-drop lo payload, h) in
    rw size

address-long :
    (kind : ℕ → IpAddr) (lo n : ℕ) (payload : List ℕ) (dst : IpAddr)
    → 0 < n
    → address kind (get_range lo n payload) ≡ some dst
    → (lo + n ≤ length payload) × (dst ≡ kind (be_value (take n (drop lo payload))))
address-long kind lo n payload dst some_byte h =
    elim (Bool-cases (length (take n (drop lo payload)) == n)) [
      | inl whole ↦
          let e : get_range lo n payload ≡ some (take n (drop lo payload)) = rw whole in
          let r = ap (address kind) e in
          (ground (arith, length-take n (drop lo payload), length-drop lo payload, whole), cc)
      | inr part ↦
          let e : get_range lo n payload ≡ none = rw part in
          let r = ap (address kind) e in let no : ⊥ = cc in elim no [ ]
    ]

there :
    (first : ℕ) (rest : List ℕ) (dst : IpAddr)
    → packet_dst (first ∷ rest) ≡ some dst
    → IsPacketTo (first ∷ rest) dst
unfolding packet_dst
there first rest dst h =
    let payload = first ∷ rest in
    elim (Bool-cases (first / 16 == 4)) [
      | inl four ↦
          let e : packet_dst payload ≡ address ipv4 (get_range 16 4 payload) = rw four in
          let (long, same) = address-long ipv4 16 4 payload dst (omega arith) (sym e ∙ h) in
          version_four first rest refl ((==_iff (first / 16) 4).0 four) long same
      | inr other ↦ elim (Bool-cases (first / 16 == 6)) [
        | inl six ↦
            let e : packet_dst payload ≡ address ipv6 (get_range 24 16 payload) = rw (other, six) in
            let (long, same) = address-long ipv6 24 16 payload dst (omega arith) (sym e ∙ h) in
            version_six first rest refl ((==_iff (first / 16) 6).0 six) long same
        | inr strange ↦
            let e : packet_dst payload ≡ none = rw (other, strange) in
            let no : ⊥ = cc in elim no [ ]
      ]
    ]

back : (payload : List ℕ) (dst : IpAddr) → IsPacketTo payload dst → packet_dst payload ≡ some dst
unfolding packet_dst
back payload dst (version_four first rest e v long same) =
    let four : (first / 16 == 4) ≡ true = (==_iff (first / 16) 4).1 v in
    let tested : packet_dst (first ∷ rest) ≡ address ipv4 (get_range 16 4 (first ∷ rest)) =
      rw four in
    ap packet_dst e
    ∙ tested
    ∙ ap (λ p. address ipv4 (get_range 16 4 p)) (sym e)
    ∙ ap (address ipv4) (get_range_long 16 4 payload (omega (arith, long)))
    ∙ ap some (sym same)
back payload dst (version_six first rest e v long same) =
    let six : (first / 16 == 6) ≡ true = (==_iff (first / 16) 6).1 v in
    let not_four : (first / 16 == 4) ≡ false = ground (arith, v) in
    let tested : packet_dst (first ∷ rest) ≡ address ipv6 (get_range 24 16 (first ∷ rest)) =
      rw (not_four, six) in
    ap packet_dst e
    ∙ tested
    ∙ ap (λ p. address ipv6 (get_range 24 16 p)) (sym e)
    ∙ ap (address ipv6) (get_range_long 24 16 payload (omega (arith, long)))
    ∙ ap some (sym same)

from_bytes :
    (payload : List ℕ) (dst : IpAddr) → packet_dst payload ≡ some dst → IsPacketTo payload dst
unfolding packet_dst
from_bytes [] dst h = cc
from_bytes (first ∷ rest) dst h = there first rest dst h

pub packet_dst_iff :
    (payload : List ℕ) (dst : IpAddr) → (packet_dst payload ≡ some dst) ↔ IsPacketTo payload dst
packet_dst_iff payload dst = (from_bytes payload dst, back payload dst)

-- An enabled policy lets a packet of a node in exactly where it has a whole destination field, IPv4 or
-- IPv6, and the first rule that matches the node and this address, as `Prefix::matches` of a release
-- build answers, allows it.
pub allows_packet_iff :
    (policy : AclPolicy) (from : ℕ) (payload : List ℕ)
    → policy.enabled ≡ true
    → (allows_packet policy from payload ≡ true)
      ↔ ((dst : IpAddr) × IsPacketTo payload dst × Permits policy from dst policy.rules)
unfolding allows_packet
allows_packet_iff policy from payload on =
    let e : allows_packet policy from payload ≡ packet_verdict policy from (packet_dst payload) =
      ap (λ b. if not b then true else packet_verdict policy from (packet_dst payload)) on in
    (
      λ h. elim (Option-cases (packet_dst payload)) [
        | inl no_dst ↦
            let r = ap (packet_verdict policy from) no_dst in let no : ⊥ = cc in elim no [ ]
        | inr (dst, found) ↦
            let r = ap (packet_verdict policy from) found in
            (
              dst,
              from_bytes payload dst found,
              (allows_iff policy from dst on).0 (sym r ∙ sym e ∙ h),
            )
      ],
      λ p.
          let (dst, packet, permit) = p in
          e
          ∙ ap (packet_verdict policy from) (back payload dst packet)
          ∙ (allows_iff policy from dst on).1 permit,
    )
