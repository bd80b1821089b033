-- ===== src/Route/Engine/Remove.antt =====
-- The removals against what later lookups see.
use landscape_rill.Base.{
  ℕ, ◌≡◌, sym, ap, ◌∙◌, Bool, false, not, some, map, ◌≢◌, inl, inr, filter, find?, any, In, arith,
  Option-cases,
}
use landscape_rill.Base.Sort.{IsTotal, sort_by, filter-sort_by}
use landscape_rill.Base.Filters.{
  filter-map, filter_comm, length-filter-not, any-filter-not, In-filter, In-find?,
}
use landscape_rill.Base.Text.{Text}
use landscape_rill.Route.Prefix
use landscape_rill.Route.Prefix.{Prefix, IpAddr, prefix_eq}
use landscape_rill.Route.Entry.{
  RouteSource, RouteVia, RouteEntry, mesh_node, dn42_peer, tailnet_peer, direct, priority,
  source_eq_iff, via_eq_iff, prefix_eq_iff,
}
use landscape_rill.Route.Table
use landscape_rill.Route.Table.{LpmTable, shorter, is_named}
use landscape_rill.Route.Engine.{
  before, lookup, remove_dn42_peer, dn42_via, via_dn42_peer, supplier, serves,
}

before-IsTotal : IsTotal before
before-IsTotal = record {
  total = λ (x, p) (y, q) h. ground arith;
  trans = λ (x, p) (y, q) (z, r) h k. ground arith;
}

shorter-IsTotal : IsTotal shorter
shorter-IsTotal = record { total = λ x y h. ground arith; trans = λ x y z h k. ground arith }

-- After `remove_where` a lookup returns what it returned before, in the same order, without the
-- candidates that the predicate names.
pub lookup-remove_where :
    (pred : RouteEntry → Bool) (t : LpmTable) (addr : IpAddr)
    → lookup (Table.remove_where pred t) addr ≡ filter (λ c. not (pred c.0)) (lookup t addr)
unfolding lookup Table.matches Table.remove_where
lookup-remove_where pred t addr =
    let keep = λ (e : RouteEntry). not (pred e) in
    let here = λ (e : RouteEntry). Prefix.matches e.prefix addr in
    let ranked = λ (e : RouteEntry). (let c : RouteEntry × ℕ = (e, priority e.source) in c) in
    ap (λ (l : LpmTable). sort_by before (map ranked (sort_by shorter l))) (filter_comm here keep t)
    ∙ ap (λ (l : LpmTable). sort_by before (map ranked l))
        (sym (filter-sort_by shorter shorter-IsTotal keep (filter here t)))
    ∙ ap (sort_by before)
        (sym (filter-map ranked (λ c. keep c.0) (sort_by shorter (filter here t))))
    ∙ sym (
        filter-sort_by before before-IsTotal (λ c. keep c.0)
          (map ranked (sort_by shorter (filter here t))))

-- `remove` answers whether the table held the named entry, and leaves no such entry; a second call
-- answers `false`.
pub remove_reports :
    (p : Prefix) (s : RouteSource) (v : RouteVia) (t : LpmTable)
    → ((Table.remove p s v t).1 ≡ any (is_named p s v) t)
      × (any (is_named p s v) (Table.remove p s v t).0 ≡ false)
      × ((Table.remove p s v (Table.remove p s v t).0).1 ≡ false)
unfolding Table.remove
remove_reports p s v t =
    let named = is_named p s v in
    let gone = any-filter-not named t in
    (
      length-filter-not named t,
      gone,
      length-filter-not named (filter (λ e. not (named e)) t) ∙ gone,
    )

supplier_via : (e : RouteEntry) (q : Text) → supplier (some e) ≡ some q → e.via ≡ dn42_peer q
supplier_via e q h = via (e.via) h
  where
    via : (v : RouteVia) → via_dn42_peer v ≡ some q → v ≡ dn42_peer q
    via (dn42_peer r) h = cc
    via (mesh_node n) h = cc
    via (tailnet_peer r) h = cc
    via (direct r) h = cc

-- A supplier that is reported has a route to the prefix in the table.
dn42_via-some :
    (t : LpmTable) (p : Prefix) (q : Text)
    → dn42_via t p ≡ some q
    → (e : RouteEntry) × In e t
      × (e.prefix ≡ p)
      × (e.source ≡ RouteSource.dn42)
      × (e.via ≡ dn42_peer q)
unfolding dn42_via
dn42_via-some t p q h = elim (Option-cases (find? (serves p) t)) [
  | inl f ↦ cc (ap supplier f, h)
  | inr (e, f) ↦
      let (found, passes) = In-find? (serves p) e t f in
      (
        e,
        found,
        (prefix_eq_iff e.prefix p).0 (ground arith),
        (source_eq_iff e.source RouteSource.dn42).0 (ground arith),
        supplier_via e q (sym (ap supplier f) ∙ h),
      )
]

-- Once a peer's session is withdrawn, `dn42_via` answers another peer, whose route to the prefix
-- the table held before.
pub dn42_via-remove_dn42_peer :
    (t : LpmTable) (p : Prefix) (peer q : Text)
    → dn42_via (remove_dn42_peer peer t) p ≡ some q
    → (q ≢ peer)
      × ((e : RouteEntry) × In e t
          × (e.prefix ≡ p)
          × (e.source ≡ RouteSource.dn42)
          × (e.via ≡ dn42_peer q))
unfolding remove_dn42_peer Table.remove_where
dn42_via-remove_dn42_peer t p peer q h =
    let (e, found, prefix, source, via) = dn42_via-some (remove_dn42_peer peer t) p q h in
    let (held, kept) = In-filter _ e t found in
    (
      λ same.
          let s = (source_eq_iff e.source RouteSource.dn42).1 source in
          let v = (via_eq_iff e.via (dn42_peer peer)).1 (via ∙ ap dn42_peer same) in ground arith,
      (e, held, prefix, source, via),
    )
