-- ===== src/Route/Resolver/Examples.antt =====
-- Runs of the resolver, and its theorems at concrete inputs.
use landscape_rill.Base.{◌≡◌, refl, true, false, some, [], ◌∷◌, find?}
use landscape_rill.Route.Entry.{tailnet_peer}
use landscape_rill.Route.Resolver.{
  ExitSource, DefaultRouteResolver, resolve, resolve_loop, set_mesh_exits, chain,
  resolve-find_chain,
}

abbrev exits : DefaultRouteResolver
exits = record {
  preference = ExitSource.mesh ∷ ExitSource.tailnet ∷ [];
  mesh_exits = 5 ∷ [];
  tailnet_exits = (b'y' ∷ []) ∷ [];
  self_exit = false;
}

-- An exit skips the mesh source although it is preferred.
resolve_exit :
    resolve (set_mesh_exits (5 ∷ []) true exits) (λ v. true) ≡ some (tailnet_peer (b'y' ∷ []))
unfolding resolve resolve_loop set_mesh_exits
resolve_exit = refl

resolve-find_chain_example :
    resolve exits (λ v. true)
    ≡ find? (λ v. true) (chain exits (ExitSource.mesh ∷ ExitSource.tailnet ∷ []))
resolve-find_chain_example = resolve-find_chain exits (λ v. true)
