-- ===== src/Route/Entry.antt =====
-- rill-core/src/route/mod.rs: `RouteSource`, `RouteVia`, `RouteEntry`, with their derived `==`.
use landscape_rill.Base.{ℕ, ◌≡◌, ◌↔◌, Bool, true, false, Option, ◌==◌, arith}
use landscape_rill.Base.Text.{Text, text_eq, text_eq_iff}
use landscape_rill.Route.Prefix.{Prefix, prefix_eq}

pub data RouteSource : Type 0 where
  lan mesh dyn_dn42 dn42 tailnet : RouteSource

-- `RouteSource::priority`.
abbrev pub priority : RouteSource → ℕ
priority lan = 0
priority mesh = 1
priority dn42 = 2
priority dyn_dn42 = 3
priority tailnet = 4

pub data RouteVia : Type 0 where
  mesh_node : ℕ → RouteVia
  dn42_peer : Text → RouteVia
  tailnet_peer : Text → RouteVia
  direct : Text → RouteVia

pub record RouteEntry : Type 0 where
  pub prefix : Prefix
  pub source : RouteSource
  pub via : RouteVia
  pub metric : Option ℕ

-- Distinct sources have distinct priorities, so equality of sources is that of priorities.
abbrev pub source_eq : RouteSource → RouteSource → Bool
source_eq a b = priority a == priority b

abbrev pub via_eq : RouteVia → RouteVia → Bool
via_eq (mesh_node a) (mesh_node b) = a == b
via_eq (dn42_peer a) (dn42_peer b) = text_eq a b
via_eq (tailnet_peer a) (tailnet_peer b) = text_eq a b
via_eq (direct a) (direct b) = text_eq a b
via_eq _ _ = false

pub source_eq_iff : (a b : RouteSource) → (source_eq a b ≡ true) ↔ (a ≡ b)
source_eq_iff a b = ground arith

pub via_eq_iff : (a b : RouteVia) → (via_eq a b ≡ true) ↔ (a ≡ b)
via_eq_iff (mesh_node a) (mesh_node b) = ground arith
via_eq_iff (dn42_peer a) (dn42_peer b) = ground (arith, text_eq_iff a b)
via_eq_iff (tailnet_peer a) (tailnet_peer b) = ground (arith, text_eq_iff a b)
via_eq_iff (direct a) (direct b) = ground (arith, text_eq_iff a b)
via_eq_iff _ _ = ground arith

pub prefix_eq_iff : (p q : Prefix) → (prefix_eq p q ≡ true) ↔ (p ≡ q)
unfolding prefix_eq
prefix_eq_iff p q = ground arith
