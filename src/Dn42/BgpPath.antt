-- ===== src/Dn42/BgpPath.antt =====
-- rill-dn42/src/rib/mod.rs: `BgpPath`, `extract_announced` and `extract_withdrawn`.
use landscape_rill.Base.{
  ℕ, ◌≡◌, ◌↔◌, Bool, true, false, ◌&&◌, ◌||◌, Option, none, some, List, [], ◌∷◌, ◌++◌, map, length,
  ◌==◌, if◌then◌else◌, arith,
}
use landscape_rill.Base.Text.{text_eq, text_eq_iff}
use landscape_rill.Route.Prefix.{Prefix, IpAddr, ipv4, ipv6}
use landscape_rill.Dn42.Message.{
  UpdateMsg, Segment, PathAttr, origin, as_path, as4_path, next_hop, communities, mp_reach,
  mp_unreach,
}

pub record BgpPath : Type 0 where
  pub as_path : List ℕ
  pub next_hop : Option IpAddr
  pub origin : ℕ
  pub communities : List ℕ

unfoldable pub path_len : BgpPath → ℕ
path_len p = length p.as_path

-- The derived `==`.
abbrev pub ip_eq : IpAddr → IpAddr → Bool
ip_eq (ipv4 a) (ipv4 b) = a == b
ip_eq (ipv6 a) (ipv6 b) = a == b
ip_eq _ _ = false

abbrev pub hop_eq : Option IpAddr → Option IpAddr → Bool
hop_eq none none = true
hop_eq (some a) (some b) = ip_eq a b
hop_eq _ _ = false

unfoldable pub path_eq : BgpPath → BgpPath → Bool
path_eq p q =
    text_eq p.as_path q.as_path
    && hop_eq p.next_hop q.next_hop
    && p.origin == q.origin
    && text_eq p.communities q.communities

ip_eq_iff : (a b : IpAddr) → (ip_eq a b ≡ true) ↔ (a ≡ b)
ip_eq_iff (ipv4 a) (ipv4 b) = ground arith
ip_eq_iff (ipv6 a) (ipv6 b) = ground arith
ip_eq_iff _ _ = ground arith

hop_eq_iff : (a b : Option IpAddr) → (hop_eq a b ≡ true) ↔ (a ≡ b)
hop_eq_iff none none = ground arith
hop_eq_iff (some a) (some b) = ground (arith, ip_eq_iff a b)
hop_eq_iff _ _ = ground arith

pub path_eq_iff : (p q : BgpPath) → (path_eq p q ≡ true) ↔ (p ≡ q)
unfolding path_eq
path_eq_iff p q = ground (
  arith,
  text_eq_iff p.as_path q.as_path,
  hop_eq_iff p.next_hop q.next_hop,
  text_eq_iff p.communities q.communities,
)

-- `segs.iter().flat_map(|s| s.asns)`.
abbrev pub flatten_segments : List Segment → List ℕ
flatten_segments [] = []
flatten_segments (s ∷ rest) = s.asns ++ flatten_segments rest

abbrev pub is_empty {ℓ} : {A : Type ℓ} → List A → Bool
is_empty [] = true
is_empty (x ∷ xs) = false

-- The two variables that the loop of `extract_announced` over the attributes sets.
pub record Gathered : Type 0 where
  pub base : BgpPath
  pub mp : Option (ℕ × IpAddr)

unfoldable pub gather_attr : Gathered → PathAttr → Gathered
gather_attr g (origin o) = record g { base = record (g.base) { origin = o } }
gather_attr g (as4_path segs) =
    let flat = flatten_segments segs in
    if is_empty flat then g else record g { base = record (g.base) { as_path = flat } }
gather_attr g (as_path segs) =
    if is_empty g.base.as_path
    then record g { base = record (g.base) { as_path = flatten_segments segs } }
    else g
gather_attr g (next_hop ip) = record g { base = record (g.base) { next_hop = some (ipv4 ip) } }
gather_attr g (communities cs) = record g { base = record (g.base) { communities = cs } }
gather_attr g (mp_reach afi safi hop nlri) =
    if safi == 1 then record g { mp = some (afi, hop) } else g
gather_attr g (mp_unreach afi safi nlri) = g

unfoldable pub gather : Gathered → List PathAttr → Gathered
gather g [] = g
gather g (a ∷ rest) = gather (gather_attr g a) rest

-- The second loop: the nlri of the MP_REACH attributes of the family that was seen last.
unfoldable pub mp_nlri : ℕ → List PathAttr → List Prefix
mp_nlri afi [] = []
mp_nlri afi (mp_reach a safi hop nlri ∷ rest) =
    let later = mp_nlri afi rest in if safi == 1 && a == afi then nlri ++ later else later
mp_nlri afi (a ∷ rest) = mp_nlri afi rest

abbrev pub with_path : BgpPath → Prefix → Prefix × BgpPath
with_path path p = (p, path)

unfoldable pub extract_announced : UpdateMsg → List (Prefix × BgpPath)
extract_announced u =
    let start : Gathered = record {
      base = record { as_path = []; next_hop = none; origin = 2; communities = [] };
      mp = none;
    } in
    let g = gather start u.attrs in
    map (with_path g.base) u.announced ++ elim g.mp [
      | none ↦ []
      | some (afi, nh) ↦
          map (with_path (record (g.base) { next_hop = some nh })) (mp_nlri afi u.attrs)
    ]

unfoldable pub mp_withdrawn : List PathAttr → List Prefix
mp_withdrawn [] = []
mp_withdrawn (mp_unreach afi safi nlri ∷ rest) =
    let later = mp_withdrawn rest in
    if (afi == 1 || afi == 2) && safi == 1 then nlri ++ later else later
mp_withdrawn (a ∷ rest) = mp_withdrawn rest

unfoldable pub extract_withdrawn : UpdateMsg → List Prefix
extract_withdrawn u = u.withdrawn ++ mp_withdrawn u.attrs
