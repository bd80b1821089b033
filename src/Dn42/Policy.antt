-- ===== src/Dn42/Policy.antt =====
-- rill-dn42/src/policy/mod.rs. A rejected prefix is held itself in place of its `to_cidr` text.
pub mod Admit
pub mod Bogons
mod Examples
use landscape_rill.Base.{
  ℕ, ◌+◌, ◌-◌, ◌*◌, ◌^◌, ◌≡◌, Bool, true, false, not, Option, none, some, List, [], ◌∷◌, leb, ltb,
  ◌==◌, if◌then◌else◌, any, Result, ok, err, ◌>>=◌, ◌>>◌, guard,
}
use landscape_rill.Route.Prefix.{Prefix, new, is_covered_by}
use landscape_rill.Dn42.BgpPath.{BgpPath}

-- The constants that `Prefix::parse` reads, as their bytes and lengths; `filter_map(…ok())` drops
-- what `new` rejects, which is none of them.
abbrev pub parsed_prefixes : List (Option Prefix) → List Prefix
parsed_prefixes [] = []
parsed_prefixes (none ∷ rest) = parsed_prefixes rest
parsed_prefixes (some p ∷ rest) = p ∷ parsed_prefixes rest

-- "a.b.c.d/len" and "w:x::/len", from the leading 32 bits of the address.
abbrev pub parsed : ℕ → ℕ → Bool → Option Prefix
parsed leading len v4 = new (leading * 2 ^ 96) len v4

unfoldable pub default_bogons : List Prefix
default_bogons = parsed_prefixes (
    parsed 0x00000000 8 true
    ∷ parsed 0x7f000000 8 true
    ∷ parsed 0xa9fe0000 16 true
    ∷ parsed 0xc0a80000 16 true
    ∷ parsed 0x64400000 10 true
    ∷ parsed 0xe0000000 4 true
    ∷ parsed 0xf0000000 4 true
    ∷ new 0 128 false
    ∷ new 1 128 false
    ∷ parsed 0xfe800000 10 false
    ∷ parsed 0xff000000 8 false
    ∷ parsed 0x20010db8 32 false
    ∷ [])

pub data ImportReject : Type 0 where
  not_in_whitelist : Prefix → ImportReject
  bogon : Prefix → ImportReject
  as_loop : ℕ → ImportReject
  missing_next_hop : ImportReject
  too_many_prefixes : ℕ → ImportReject

pub record ImportPolicy : Type 0 where
  pub whitelist : List Prefix
  pub bogons : List Prefix
  pub own_as : ℕ
  pub max_prefixes : Option ℕ
  pub accepted : ℕ

abbrev pub unwrap_or : Option (List Prefix) → List Prefix → List Prefix
unwrap_or none d = d
unwrap_or (some l) d = l

-- `ImportPolicy::new`.
unfoldable pub new_policy : List Prefix → Option (List Prefix) → ℕ → Option ℕ → ImportPolicy
new_policy whitelist bogons own_as max_prefixes = record {
  whitelist = whitelist;
  bogons = unwrap_or bogons default_bogons;
  own_as = own_as;
  max_prefixes = max_prefixes;
  accepted = 0;
}

-- Whether `accepted >= max` for a configured limit.
abbrev pub at_limit : Option ℕ → ℕ → Bool
at_limit none n = false
at_limit (some max) n = leb max n

abbrev pub limit_of : Option ℕ → ℕ
limit_of none = 0
limit_of (some max) = max

-- The new policy, or the error that leaves it as it was. The u32 counter cannot overflow before the
-- memory for the routes is used up: it counts stored routes (Rib/Counted).
unfoldable pub note_accepted : ImportPolicy → Result ImportReject ImportPolicy
note_accepted p =
    if at_limit p.max_prefixes p.accepted
    then err (too_many_prefixes (limit_of p.max_prefixes))
    else ok (record p { accepted = p.accepted + 1 })

-- `saturating_sub(1)`.
unfoldable pub note_withdrawn : ImportPolicy → ImportPolicy
note_withdrawn p = record p { accepted = p.accepted - 1 }

abbrev pub is_over : Option ℕ → ℕ → Bool
is_over none n = false
is_over (some max) n = ltb max n

unfoldable pub over_limit : ImportPolicy → Bool
over_limit p = is_over p.max_prefixes p.accepted

abbrev pub is_some {ℓ} : {A : Type ℓ} → Option A → Bool
is_some none = false
is_some (some a) = true

unfoldable pub admit : ImportPolicy → Prefix → BgpPath → Result ImportReject (Unit {0})
admit p prefix path = do
  guard (is_some path.next_hop) missing_next_hop
  guard (not (any (λ b. is_covered_by prefix b) p.bogons)) (bogon prefix)
  guard (any (λ w. is_covered_by prefix w) p.whitelist) (not_in_whitelist prefix)
  guard (not (any (λ asn. asn == p.own_as) path.as_path)) (as_loop p.own_as)

-- `ExportPolicy`: the own prefixes, and nothing that was learned.
pub record ExportPolicy : Type 0 where
  pub own_prefixes : List Prefix
