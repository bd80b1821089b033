-- ===== src/Route/Resolver.antt =====
-- rill-core/src/route/default.rs: `DefaultRouteResolver`, the exit chain behind a missed lookup.
mod Examples
use landscape_rill.Base.{
  ℕ, ◌≡◌, refl, sym, ap, ◌∙◌, ◌≢◌, ◌⊎◌, inl, inr, Bool, true, false, ◌&&◌, Option, none, some, List,
  [], ◌∷◌, ◌++◌, map, find?, In, arith, if◌then◌else◌, Bool-cases, Option-cases,
}
use landscape_rill.Base.Text.{Text}
use landscape_rill.Base.Filters.{In-find?}
use landscape_rill.Route.Entry.{RouteVia, mesh_node, tailnet_peer}

pub data ExitSource : Type 0 where
  tailnet mesh : ExitSource

pub record DefaultRouteResolver : Type 0 where
  pub preference : List ExitSource
  pub mesh_exits : List ℕ
  pub tailnet_exits : List Text
  pub self_exit : Bool

unfoldable pub new : List ExitSource → DefaultRouteResolver
new preference = record {
  preference = preference;
  mesh_exits = [];
  tailnet_exits = [];
  self_exit = false;
}

unfoldable pub set_mesh_exits : List ℕ → Bool → DefaultRouteResolver → DefaultRouteResolver
set_mesh_exits exits self_exit r = record r { mesh_exits = exits; self_exit = self_exit }

unfoldable pub set_tailnet_exits : List Text → DefaultRouteResolver → DefaultRouteResolver
set_tailnet_exits peers r = record r { tailnet_exits = peers }

-- The `match source` of the loop: the candidates of one source.
abbrev pub candidates : DefaultRouteResolver → ExitSource → List RouteVia
candidates r tailnet = map tailnet_peer r.tailnet_exits
candidates r mesh = map mesh_node r.mesh_exits

-- `*source == ExitSource::Mesh && self.self_exit`.
abbrev pub is_pruned : DefaultRouteResolver → ExitSource → Bool
is_pruned r mesh = r.self_exit
is_pruned r tailnet = false

-- The loop over the sources that are left.
unfoldable pub resolve_loop :
    DefaultRouteResolver → (RouteVia → Bool) → List ExitSource → Option RouteVia
resolve_loop r reachable [] = none
resolve_loop r reachable (source ∷ rest) =
    let later = resolve_loop r reachable rest in
    if is_pruned r source
    then later
    else elim (find? reachable (candidates r source)) [ some via ↦ some via | none ↦ later ]

unfoldable pub resolve : DefaultRouteResolver → (RouteVia → Bool) → Option RouteVia
resolve r reachable = resolve_loop r reachable r.preference

-- All candidates in the order of preference, those of the pruned source left out.
unfoldable pub chain : DefaultRouteResolver → List ExitSource → List RouteVia
chain r [] = []
chain r (source ∷ rest) = (if is_pruned r source then [] else candidates r source) ++ chain r rest

find?-append {ℓ} :
    {A : Type ℓ} (p : A → Bool) (xs ys : List A)
    → find? p (xs ++ ys) ≡ elim (find? p xs) [ some x ↦ some x | none ↦ find? p ys ]
find?-append p [] ys = refl
find?-append p (x ∷ xs) ys = ground (arith, find?-append p xs ys)

resolve_loop-chain :
    (r : DefaultRouteResolver) (reachable : RouteVia → Bool) (sources : List ExitSource)
    → resolve_loop r reachable sources ≡ find? reachable (chain r sources)
unfolding resolve_loop chain
resolve_loop-chain r reachable [] = refl
resolve_loop-chain r reachable (s ∷ rest) = ground (
  arith,
  resolve_loop-chain r reachable rest,
  find?-append reachable (candidates r s) (chain r rest),
)

-- `resolve` answers the first reachable candidate of the chain, and nothing if there is none.
pub resolve-find_chain :
    (r : DefaultRouteResolver) (reachable : RouteVia → Bool)
    → resolve r reachable ≡ find? reachable (chain r r.preference)
unfolding resolve
resolve-find_chain r reachable = resolve_loop-chain r reachable r.preference

tailnet_candidates : (ids : List Text) (n : ℕ) → In (mesh_node n) (map tailnet_peer ids) → ⊥
tailnet_candidates [] n i = i
tailnet_candidates (x ∷ xs) n (inl e) = cc
tailnet_candidates (x ∷ xs) n (inr i) = tailnet_candidates xs n i

no_mesh_loop :
    (r : DefaultRouteResolver) (reachable : RouteVia → Bool) (sources : List ExitSource) (n : ℕ)
    → r.self_exit ≡ true
    → resolve_loop r reachable sources ≢ some (mesh_node n)
unfolding resolve_loop
no_mesh_loop r reachable [] n s e = cc
no_mesh_loop r reachable (mesh ∷ rest) n s e = no_mesh_loop r reachable rest n s (rw s at e)
no_mesh_loop r reachable (tailnet ∷ rest) n s e =
    elim (Option-cases (find? reachable (map tailnet_peer r.tailnet_exits))) [
      | inl f ↦ no_mesh_loop r reachable rest n s (rw f at e)
      | inr (v, f) ↦
          let same : v ≡ mesh_node n = cc (rw f at e) in
          tailnet_candidates r.tailnet_exits n
            (In-find? reachable (mesh_node n) _ (f ∙ ap some same)).0
    ]

-- A node that is itself a mesh exit never resolves to another mesh exit.
pub resolve_self_exit :
    (r : DefaultRouteResolver) (reachable : RouteVia → Bool) (exits : List ℕ) (n : ℕ)
    → resolve (set_mesh_exits exits true r) reachable ≢ some (mesh_node n)
unfolding resolve set_mesh_exits
resolve_self_exit r reachable exits n = no_mesh_loop _ reachable r.preference n refl
