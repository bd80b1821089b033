-- ===== src/Route/Table.antt =====
-- rill-core/src/route/mod.rs: `LpmTable`. The struct holds one field, so the table is its `entries`.
-- A `&mut self` method returns the new table.
use landscape_rill.Base.{Bool, ◌&&◌, not, List, [], ◌∷◌, ◌++◌, leb, ◌==◌, filter, length}
use landscape_rill.Base.Sort.{sort_by}
use landscape_rill.Route.Prefix
use landscape_rill.Route.Prefix.{Prefix, IpAddr, prefix_eq}
use landscape_rill.Route.Entry.{RouteSource, RouteVia, RouteEntry, source_eq, via_eq}

abbrev pub LpmTable : Type 0
LpmTable = List RouteEntry

unfoldable pub insert : RouteEntry → LpmTable → LpmTable
insert entry t = t ++ (entry ∷ [])

-- The entry that `remove` is asked to remove.
abbrev pub is_named : Prefix → RouteSource → RouteVia → RouteEntry → Bool
is_named prefix source via e =
    prefix_eq e.prefix prefix && source_eq e.source source && via_eq e.via via

-- `remove` reports whether the table became shorter.
unfoldable pub remove : Prefix → RouteSource → RouteVia → LpmTable → LpmTable × Bool
remove prefix source via t =
    let kept = filter (λ e. not (is_named prefix source via e)) t in
    (kept, not (length kept == length t))

unfoldable pub remove_where : (RouteEntry → Bool) → LpmTable → LpmTable
remove_where pred t = filter (λ e. not (pred e)) t

-- `sort_by_key(|e| e.prefix.len)`.
abbrev pub shorter : RouteEntry → RouteEntry → Bool
shorter a b = leb a.prefix.len b.prefix.len

unfoldable pub matches : LpmTable → IpAddr → List RouteEntry
matches t addr = sort_by shorter (filter (λ e. Prefix.matches e.prefix addr) t)
