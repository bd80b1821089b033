-- ===== src/Route/Engine/Select.antt =====
-- `lookup_best` without the sorts: one pass that keeps the first of the best reachable entries.
use landscape_rill.Base.{
  ℕ, ◌≡◌, refl, ap, ◌∙◌, Bool, true, false, ◌&&◌, ◌||◌, ltb, leb, ◌==◌, [], ◌∷◌, map, filter, arith,
}
use mathlib.Core.Path.{subst, fun_ext}
use landscape_rill.Base.Sort.{sort_by, IsTotal, sort_by-map}
use landscape_rill.Base.Best.{first_best, first_best-filter, find?-sort_by, first_best-sort_by}
use landscape_rill.Route.Prefix
use landscape_rill.Route.Prefix.{IpAddr}
use landscape_rill.Route.Entry.{
  RouteSource, RouteEntry, lan, mesh, dn42, dyn_dn42, tailnet, priority,
}
use landscape_rill.Route.Table
use landscape_rill.Route.Table.{LpmTable, shorter}
use landscape_rill.Route.Engine.{before, lookup, lookup_best}

-- The order of sources that a tie on the length follows: the local network, the mesh, a dn42 peer of
-- this node, dn42 behind another node, and the tailnet last. `not_later a b`: `a` comes no later.
abbrev pub not_later : RouteSource → RouteSource → Bool
not_later lan _ = true
not_later _ lan = false
not_later mesh _ = true
not_later _ mesh = false
not_later dn42 _ = true
not_later _ dn42 = false
not_later dyn_dn42 _ = true
not_later _ dyn_dn42 = false
not_later tailnet tailnet = true

-- The order of entries: a longer prefix first, then a source that comes no later.
abbrev pub precedes : RouteEntry → RouteEntry → Bool
precedes a b =
    ltb b.prefix.len a.prefix.len || a.prefix.len == b.prefix.len && not_later a.source b.source

-- The priority numbers of the code follow that order.
priority-not_later : (a b : RouteSource) → leb (priority a) (priority b) ≡ not_later a b
priority-not_later a b = ground arith

-- The code's comparator, on the pairs that `lookup` sorts.
abbrev compared : RouteEntry → RouteEntry → Bool
compared a b = before (a, priority a.source) (b, priority b.source)

compared-precedes : compared ≡ precedes
compared-precedes = fun_ext (λ a. fun_ext (λ b. rw (priority-not_later a.source b.source) refl))

compared-IsTotal : IsTotal compared
compared-IsTotal = record { total = λ x y h. ground arith; trans = λ x y z h k. ground arith }

pub precedes-IsTotal : IsTotal precedes
precedes-IsTotal = subst IsTotal compared-precedes compared-IsTotal

-- What the second sort would undo: an entry moved behind a shorter one comes before it again.
shorter_finer :
    (x y : RouteEntry) → shorter x y ≡ false → (precedes x y ≡ true) × (precedes y x ≡ false)
shorter_finer x y h = ground arith

-- An entry that `lookup_best` may return.
abbrev pub eligible : IpAddr → (RouteEntry → Bool) → RouteEntry → Bool
eligible addr reachable e = Prefix.matches e.prefix addr && reachable e

map_fst :
    (xs : LpmTable)
    → map (λ (c : RouteEntry × ℕ). c.0) (map (λ (e : RouteEntry). (e, priority e.source)) xs) ≡ xs
map_fst [] = refl
map_fst (x ∷ xs) = ap (λ (t : LpmTable). x ∷ t) (map_fst xs)

pub lookup_best-first_best :
    (t : LpmTable) (addr : IpAddr) (reachable : RouteEntry → Bool)
    → lookup_best t addr reachable ≡ first_best precedes (eligible addr reachable) t
unfolding lookup_best lookup Table.matches
lookup_best-first_best t addr reachable =
    let matched = filter (λ (e : RouteEntry). Prefix.matches e.prefix addr) t in
    rw
      (
        sort_by-map before (λ (e : RouteEntry). (e, priority e.source)) (sort_by shorter matched),
        map_fst,
        compared-precedes,
      )
      (find?-sort_by precedes precedes-IsTotal reachable (sort_by shorter matched)
        ∙ first_best-sort_by precedes precedes-IsTotal shorter shorter_finer reachable matched
        ∙ first_best-filter precedes (λ e. Prefix.matches e.prefix addr) reachable t)
