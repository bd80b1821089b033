-- ===== src/Route/Engine.antt =====
-- rill-core/src/route/mod.rs: `RouteEngine`, whose one field is the table. A `&mut self` method
-- returns the new table.
pub mod Select
pub mod Best
pub mod Remove
mod Examples
use landscape_rill.Base.{
  ℕ, ◌≡◌, Bool, true, false, ◌&&◌, ◌||◌, not, Option, none, some, List, [], ◌∷◌, ◌++◌, map, ltb,
  leb, ◌==◌, if◌then◌else◌, filter, find?, length,
}
use landscape_rill.Base.Sort.{sort_by}
use landscape_rill.Base.Text.{Text}
use landscape_rill.Route.Table
use landscape_rill.Route.Table.{LpmTable}
use landscape_rill.Route.Prefix.{Prefix, IpAddr, prefix_eq}
use landscape_rill.Route.Entry.{
  RouteSource, RouteVia, RouteEntry, mesh_node, dn42_peer, tailnet_peer, direct, priority,
  source_eq, via_eq,
}

-- `sort_by_key(|(e, p)| (Reverse(e.prefix.len), *p))`.
abbrev pub before : RouteEntry × ℕ → RouteEntry × ℕ → Bool
before (a, p) (b, q) = ltb b.prefix.len a.prefix.len || a.prefix.len == b.prefix.len && leb p q

unfoldable pub lookup : LpmTable → IpAddr → List (RouteEntry × ℕ)
lookup t addr =
    sort_by before (map (λ (e : RouteEntry). (e, priority e.source)) (Table.matches t addr))

unfoldable pub lookup_best : LpmTable → IpAddr → (RouteEntry → Bool) → Option RouteEntry
lookup_best t addr reachable = find? reachable (map (λ (c : RouteEntry × ℕ). c.0) (lookup t addr))

unfoldable pub remove_mesh_node : ℕ → LpmTable → LpmTable
remove_mesh_node node_id t =
    Table.remove_where
      (λ e. source_eq e.source RouteSource.mesh && via_eq e.via (mesh_node node_id)) t

unfoldable pub remove_dn42_route : Prefix → Text → LpmTable → LpmTable × Bool
remove_dn42_route prefix peer t = Table.remove prefix RouteSource.dn42 (dn42_peer peer) t

unfoldable pub remove_dn42_peer : Text → LpmTable → LpmTable
remove_dn42_peer peer t =
    Table.remove_where (λ e. source_eq e.source RouteSource.dn42 && via_eq e.via (dn42_peer peer)) t

unfoldable pub remove_tailnet_peer : Text → LpmTable → LpmTable
remove_tailnet_peer peer t =
    Table.remove_where
      (λ e. source_eq e.source RouteSource.tailnet && via_eq e.via (tailnet_peer peer)) t

unfoldable pub reset_mesh_routes : LpmTable → LpmTable
reset_mesh_routes t = Table.remove_where (λ e. source_eq e.source RouteSource.mesh) t

unfoldable pub reset_dyn_dn42_routes : LpmTable → LpmTable
reset_dyn_dn42_routes t = Table.remove_where (λ e. source_eq e.source RouteSource.dyn_dn42) t

unfoldable pub remove_dyn_dn42_node : ℕ → LpmTable → LpmTable
remove_dyn_dn42_node node_id t =
    Table.remove_where
      (λ e. source_eq e.source RouteSource.dyn_dn42 && via_eq e.via (mesh_node node_id)) t

abbrev pub via_dn42_peer : RouteVia → Option Text
via_dn42_peer (dn42_peer peer) = some peer
via_dn42_peer _ = none

-- `and_then` over the found entry.
abbrev pub supplier : Option RouteEntry → Option Text
supplier none = none
supplier (some e) = via_dn42_peer e.via

-- The entries that the search of `dn42_via` accepts.
abbrev pub serves : Prefix → RouteEntry → Bool
serves prefix e = prefix_eq e.prefix prefix && source_eq e.source RouteSource.dn42

unfoldable pub dn42_via : LpmTable → Prefix → Option Text
dn42_via t prefix = supplier (find? (serves prefix) t)
