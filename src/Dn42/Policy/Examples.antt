-- ===== src/Dn42/Policy/Examples.antt =====
-- The policy's theorems at concrete inputs.
use landscape_rill.Base.{
  ◌*◌, ◌^◌, ◌≡◌, refl, ◌↔◌, true, false, some, none, arith, [], ◌∷◌, any, inl, ok,
}
use landscape_rill.Route.Prefix.{
  Prefix, ipv4, IsCanonical, new, is_covered_by, contains, significant,
}
use landscape_rill.Dn42.BgpPath.{BgpPath}
use landscape_rill.Dn42.Policy.{ImportPolicy, new_policy, default_bogons, admit}
use landscape_rill.Dn42.Policy.Bogons.{default_bogons_spare}

-- 172.20.0.0/14 and 172.22.142.0/24 in it.
abbrev space : Prefix
space = record { bits = 0xac14 * 2 ^ 112; len = 14; v4 = true }

abbrev network : Prefix
network = record { bits = 0xac168e * 2 ^ 104; len = 24; v4 = true }

abbrev dn42_policy : ImportPolicy
dn42_policy = new_policy (space ∷ []) none 4242420001 none

abbrev learned_path : BgpPath
learned_path = record {
  as_path = 4242422223 ∷ [];
  next_hop = some (ipv4 0xac168e01);
  origin = 0;
  communities = [];
}

-- A path with the own AS is a loop.
admit_loop :
    (admit dn42_policy network (record learned_path { as_path = 4242420001 ∷ [] }) ≡ ok tt) ↔ ⊥
unfolding admit new_policy default_bogons is_covered_by contains significant new
admit_loop = (λ e. cc e, λ i. elim i [ ])

network-IsCanonical : IsCanonical network
network-IsCanonical = record { short = omega arith; fits = omega arith; aligned = refl }

network_covered : is_covered_by network space ≡ true
unfolding is_covered_by contains significant
network_covered = refl

default_bogons_spare_example : any (λ b. is_covered_by network b) default_bogons ≡ false
default_bogons_spare_example =
    default_bogons_spare network space network-IsCanonical (inl refl) network_covered
