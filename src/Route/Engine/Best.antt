-- ===== src/Route/Engine/Best.antt =====
-- What `lookup_best` promises: the best eligible entry of the table, and nothing only if there is
-- no eligible entry.
use landscape_rill.Base.{◌≡◌, ◌<◌, ◌⊎◌, ◌∙◌, sym, Bool, true, false, none, some, In, arith}
use landscape_rill.Base.Best.{first_best-some, first_best-none}
use landscape_rill.Route.Prefix
use landscape_rill.Route.Prefix.{IpAddr}
use landscape_rill.Route.Entry.{RouteEntry}
use landscape_rill.Route.Table.{LpmTable}
use landscape_rill.Route.Engine.{lookup_best}
use landscape_rill.Route.Engine.Select.{
  not_later, precedes, precedes-IsTotal, eligible, lookup_best-first_best,
}

-- `b` is at least as good a route as `e`: a longer prefix, or an equally long one of a source that
-- does not come later.
abbrev pub IsBetter : RouteEntry → RouteEntry → Type 0
IsBetter b e =
    (e.prefix.len < b.prefix.len)
    ⊎ ((b.prefix.len ≡ e.prefix.len) × (not_later b.source e.source ≡ true))

IsBetter-of_precedes : (b e : RouteEntry) → precedes b e ≡ true → IsBetter b e
IsBetter-of_precedes b e h = ground arith

module _ (t : LpmTable) (addr : IpAddr) (reachable : RouteEntry → Bool) where
  -- A returned entry is in the table, matches the address, is reachable, and is better than every
  -- matching reachable entry of the table.
  pub lookup_best-some :
      (b : RouteEntry)
      → lookup_best t addr reachable ≡ some b
      → In b t
        × (Prefix.matches b.prefix addr ≡ true)
        × (reachable b ≡ true)
        × ((e : RouteEntry)
            → In e t
            → Prefix.matches e.prefix addr ≡ true
            → reachable e ≡ true
            → IsBetter b e)
  lookup_best-some b h =
      let (found, passes, least) =
        first_best-some precedes precedes-IsTotal (eligible addr reachable) t b
          (sym (lookup_best-first_best t addr reachable) ∙ h) in
      (
        found,
        ground arith,
        ground arith,
        λ e i m r. IsBetter-of_precedes b e (least e i (ground arith)),
      )

  -- Nothing is returned only if no entry of the table matches and is reachable.
  pub lookup_best-none :
      lookup_best t addr reachable ≡ none
      → (e : RouteEntry) → In e t
      → Prefix.matches e.prefix addr ≡ true
      → reachable e ≡ false
  lookup_best-none h e i m =
      let unfit =
        first_best-none precedes precedes-IsTotal (eligible addr reachable) t
          (sym (lookup_best-first_best t addr reachable) ∙ h) e i in
      ground arith
