-- ===== src/Dn42/Rib/Loops.antt =====
-- An invariant that each round keeps holds after `apply` and after `purge_peer`.
use landscape_rill.Base.{List, [], ◌∷◌, map, Bool-cases, inl, inr}
use landscape_rill.Base.Assoc.{keys}
use landscape_rill.Base.Text.{Text}
use landscape_rill.Route.Prefix.{Prefix}
use landscape_rill.Dn42.Message.{UpdateMsg}
use landscape_rill.Dn42.BgpPath.{BgpPath, extract_announced, extract_withdrawn}
use landscape_rill.Dn42.Policy.{ImportPolicy}
use landscape_rill.Dn42.Rib.{
  LocRib, ApplyState, start, announce_one, announce_loop, withdraw_one, withdraw_loop, apply,
  purge_peer, prefix_of, key_eq,
}

module _ {ℓ} (peer : Text) (P : ApplyState → Type ℓ) where
  module _ (withdraw_keeps : (s : ApplyState) (p : Prefix) → P s → P (withdraw_one peer s p)) where
    pub withdraw_loop_inv : (s : ApplyState) (ps : List Prefix) → P s → P (withdraw_loop peer s ps)
    unfolding withdraw_loop
    withdraw_loop_inv s [] h = h
    withdraw_loop_inv s (p ∷ ps) h =
        withdraw_loop_inv (withdraw_one peer s p) ps (withdraw_keeps s p h)

    pub purge_inv :
        (rib : LocRib) (policy : ImportPolicy)
        → P (start rib policy)
        → P (purge_peer peer rib policy)
    unfolding purge_peer
    purge_inv rib policy h = withdraw_loop_inv (start rib policy) (map prefix_of (keys rib)) h

    module _
        (announce_keeps : (s : ApplyState) (p : Prefix) (path : BgpPath)
          → P s
          → P (announce_one peer s (p, path))) where
      announce_loop_inv :
          (s : ApplyState) (routes : List (Prefix × BgpPath))
          → P s
          → P (announce_loop peer s routes)
      unfolding announce_loop
      announce_loop_inv s [] h = h
      announce_loop_inv s ((p, path) ∷ rest) h =
          let s' = announce_one peer s (p, path) in
          let h' = announce_keeps s p path h in
          elim (Bool-cases s'.out.max_prefix_exceeded) [
            | inl e ↦ rw (e, announce_loop) h'
            | inr e ↦ rw (e, announce_loop) (announce_loop_inv s' rest h')
          ]

      pub apply_inv :
          (update : UpdateMsg) (rib : LocRib) (policy : ImportPolicy)
          → P (start rib policy)
          → P (apply peer update rib policy)
      unfolding apply
      apply_inv update rib policy h =
          let s = announce_loop peer (start rib policy) (extract_announced update) in
          let h' = announce_loop_inv (start rib policy) (extract_announced update) h in
          elim (Bool-cases s.out.max_prefix_exceeded) [
            | inl e ↦ rw (e, apply) h'
            | inr e ↦ rw (e, apply) (withdraw_loop_inv s (extract_withdrawn update) h')
          ]
