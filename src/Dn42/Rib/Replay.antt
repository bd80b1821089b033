-- ===== src/Dn42/Rib/Replay.antt =====
-- The change stream of `apply` and `purge_peer` is complete: a consumer that replays it over the
-- best paths of the table before has the best paths of the table after.
use landscape_rill.Base.{
  ◌≡◌, refl, sym, ap, ◌∙◌, inl, inr, Bool, true, false, not, Option, none, some, List, [], ◌∷◌,
  ◌++◌, In, arith, filter, find?, if◌then◌else◌, Bool-cases,
}
use landscape_rill.Base.Assoc.{lookup, insert, erase, lookup-insert, lookup-erase}
use mathlib.Core.Path.{fun_ext, subst}
use landscape_rill.Base.Filters.{In-filter}
use landscape_rill.Base.Text.{Text, text_eq, text_eq_iff}
use landscape_rill.Route.Prefix.{Prefix}
use landscape_rill.Dn42.Message.{UpdateMsg}
use landscape_rill.Dn42.BgpPath.{BgpPath, is_empty}
use landscape_rill.Dn42.Policy.{ImportPolicy}
use landscape_rill.Dn42.Rib.{
  RouteChange, learned, withdrawn, PfxKey, key, key_eq, key_beq_iff, PeerPaths, LocRib, ApplyState,
  select_best, name_of, is_from, path_of, best_path, best_at, best, push_learned, or_default,
  replace_slot, with_peers, announce_one, withdraw_one, apply, purge_peer, option_text_eq,
}
use landscape_rill.Dn42.Rib.Rounds.{
  Announced, refused, repeated, replaced, stopped, added, Announced-round, entry, touched, Dropped,
  unknown, absent, last, same_best, new_best, Dropped-round, lowered,
}
use landscape_rill.Dn42.Rib.Loops.{apply_inv, purge_inv}
use landscape_rill.Dn42.Rib.Select.{min_by-some, min_by-cons, best_path-select, option_text_eq-eq}

-- The table of a consumer of `RouteChange`s, by key.
abbrev pub View : Type 0
View = PfxKey → Option BgpPath

abbrev pub update : View → PfxKey → Option BgpPath → View
update f k o j = if key_eq.beq k j then o else f j

abbrev pub replay : List RouteChange → View → View
replay [] f = f
replay (learned p path ∷ rest) f = replay rest (update f (key p) (some path))
replay (withdrawn p ∷ rest) f = replay rest (update f (key p) none)

-- The best paths of a table, by key.
abbrev pub view : LocRib → View
view rib k = best_at (lookup k rib)

replay-append :
    (xs ys : List RouteChange) (f : View) → replay (xs ++ ys) f ≡ replay ys (replay xs f)
replay-append [] ys f = refl
replay-append (learned p path ∷ xs) ys f = replay-append xs ys (update f (key p) (some path))
replay-append (withdrawn p ∷ xs) ys f = replay-append xs ys (update f (key p) none)

best_at-if :
    (b : Bool) (e : PeerPaths) (o : Option PeerPaths)
    → best_at (if b then some e else o) ≡ (if b then best_path e else best_at o)
best_at-if true e o = refl
best_at-if false e o = refl

view-insert :
    (rib : LocRib) (k : PfxKey) (e : PeerPaths)
    → view (insert k e rib) ≡ update (view rib) k (best_path e)
view-insert rib k e =
    fun_ext λ j. ap best_at (lookup-insert k j e rib) ∙ best_at-if (key_eq.beq k j) e (lookup j rib)

view-erase : (rib : LocRib) (k : PfxKey) → view (erase k rib) ≡ update (view rib) k none
view-erase rib k =
    fun_ext λ j. ap best_at (lookup-erase k j rib) ∙ none_if (key_eq.beq k j) (lookup j rib)
  where
    none_if :
        (b : Bool) (o : Option PeerPaths)
        → best_at (if b then none else o) ≡ (if b then none else best_at o)
    none_if true o = refl
    none_if false o = refl

-- Writing what is there changes nothing.
update_same : (f : View) (k : PfxKey) (o : Option BgpPath) → f k ≡ o → update f k o ≡ f
update_same f k o e = fun_ext λ j. elim (Bool-cases (key_eq.beq k j)) [
  | inl h ↦ rw h (sym e ∙ ap f ((key_beq_iff k j).0 h))
  | inr h ↦ rw h
]

-- What one entry with paths adds to the stream is the update of the view.
replay-push_learned :
    (f : View) (p : Prefix) (x : Text × BgpPath) (xs : List (Text × BgpPath))
    → let e : PeerPaths = record { peers = x ∷ xs; best = select_best (x ∷ xs) } in
      replay (push_learned p e) f ≡ update f (key p) (best_path e)
unfolding push_learned
replay-push_learned f p x xs = let (path, h) = best_path-select x xs in rw h

-- The changes so far lead from the view `f` to the table.
abbrev pub Tracks : View → ApplyState → Type 0
Tracks f s = replay s.out.changes f ≡ view s.rib

module _ (f : View) (peer : Text) where
  with_peers-Tracks :
      (s : ApplyState) (p : Prefix) (peers : List (Text × BgpPath)) (policy : ImportPolicy)
      → is_empty peers ≡ false
      → Tracks f s
      → Tracks f (with_peers s p peers policy)
  with_peers-Tracks s p [] policy n t = cc
  with_peers-Tracks s p (x ∷ xs) policy n t =
      let e : PeerPaths = record { peers = x ∷ xs; best = select_best (x ∷ xs) } in
      replay-append s.out.changes (push_learned p e) f
      ∙ ap (replay (push_learned p e)) t
      ∙ replay-push_learned (view s.rib) p x xs
      ∙ sym (view-insert s.rib (key p) e)

  or_default_same :
      (rib : LocRib) (k : PfxKey) → view (insert k (or_default (lookup k rib)) rib) ≡ view rib
  unfolding best_path
  or_default_same rib k =
      view-insert rib k (or_default (lookup k rib))
      ∙ update_same (view rib) k _ (same (lookup k rib))
    where
      same : (o : Option PeerPaths) → best_at o ≡ best_path (or_default o)
      same none = refl
      same (some e) = refl

  append_nonempty :
      (xs : List (Text × BgpPath)) (y : Text × BgpPath) → is_empty (xs ++ (y ∷ [])) ≡ false
  append_nonempty [] y = refl
  append_nonempty (x ∷ xs) y = refl

  replace_nonempty :
      (path : BgpPath) (xs : List (Text × BgpPath)) {x : Text × BgpPath}
      → find? (is_from peer) xs ≡ some x
      → is_empty (replace_slot peer path xs) ≡ false
  replace_nonempty path [] e = cc
  replace_nonempty path (y ∷ ys) e = ground arith

  announce_one-Tracks :
      (s : ApplyState) (p : Prefix) (path : BgpPath)
      → Tracks f s
      → Tracks f (announce_one peer s (p, path))
  announce_one-Tracks s p path t = round (Announced-round peer s p path)
    where
      same : replay s.out.changes f ≡ view (touched s p)
      same = t ∙ sym (or_default_same s.rib (key p))

      round : {s' : ApplyState} → Announced peer s p path s' → Tracks f s'
      round (refused reason a e) = rw e t
      round (repeated x a g b e) = rw e same
      round (replaced x a g e) =
          rw e (with_peers-Tracks s p _ s.policy (replace_nonempty path (entry s p).peers g) t)
      round (stopped reason a g n e) = rw e same
      round (added policy a g n e) =
          rw e (with_peers-Tracks s p _ policy (append_nonempty (entry s p).peers (peer, path)) t)

  -- Dropping the peer's path hides no other peer's.
  find?-drop :
      (q : Text) (xs : List (Text × BgpPath))
      → text_eq q peer ≡ false
      → find? (is_from q) (filter (λ x. not (is_from peer x)) xs) ≡ find? (is_from q) xs
  find?-drop q [] n = refl
  find?-drop q (x ∷ xs) n =
      ground (arith, find?-drop q xs n, text_eq_iff x.0 peer, text_eq_iff x.0 q)

  In-drop :
      (y : Text × BgpPath) (xs : List (Text × BgpPath))
      → In y (filter (λ x. not (is_from peer x)) xs)
      → text_eq y.0 peer ≡ false
  In-drop y xs i = let (_, h) = In-filter (λ x. not (is_from peer x)) y xs i in ground arith

  -- Where the best peer stays, the best path stays.
  best_path-drop :
      (e : PeerPaths) (x : Text × BgpPath) (xs : List (Text × BgpPath))
      → filter (λ x. not (is_from peer x)) e.peers ≡ x ∷ xs
      → option_text_eq (select_best (x ∷ xs)) e.best ≡ true
      → best_path (record e { peers = filter (λ x. not (is_from peer x)) e.peers }) ≡ best_path e
  unfolding best_path select_best
  best_path-drop e x xs kept h =
      let (b, m) = min_by-cons x xs in
      let (found, _) = min_by-some (x ∷ xs) b m in
      let other =
        In-drop b e.peers (subst (λ (l : List (Text × BgpPath)). In b l) (sym kept) found) in
      let chosen : some b.0 ≡ e.best = option_text_eq-eq _ _ (rw (ap name_of m) at h) in
      rw (sym chosen) (ap path_of (find?-drop b.0 e.peers other))

  withdraw_one-Tracks :
      (s : ApplyState) (p : Prefix) → Tracks f s → Tracks f (withdraw_one peer s p)
  withdraw_one-Tracks s p t = round (Dropped-round peer s p)
    where
      round : {s' : ApplyState} → Dropped peer s p s' → Tracks f s'
      round (unknown l e) = rw e t
      round (absent x l c e) = rw e t
      round (last x l c k e) = rw e (
          replay-append s.out.changes (withdrawn p ∷ []) f
          ∙ ap (replay (withdrawn p ∷ [])) t
          ∙ sym (view-erase s.rib (key p)))
      round (same_best x y ys l c k b e) =
          let kept : PeerPaths = record x { peers = y ∷ ys } in
          let unchanged : best_path x ≡ best_path kept =
            sym (best_path-drop x y ys k b)
            ∙ ap (λ (l : List (Text × BgpPath)). best_path (record x { peers = l })) k in
          rw e (
            replay-append s.out.changes [] f
            ∙ t
            ∙ sym (update_same (view s.rib) (key p) (best_path kept) (ap best_at l ∙ unchanged))
            ∙ sym (view-insert s.rib (key p) kept))
      round (new_best x y ys l c k e) = rw e (with_peers-Tracks s p (y ∷ ys) (lowered s) refl t)

-- Replaying the changes of one UPDATE over the best paths before gives the best path of every
-- prefix after, for every peer, update, table and policy, also where the prefix limit ends the
-- update early.
pub apply-replay :
    (peer : Text) (u : UpdateMsg) (rib : LocRib) (policy : ImportPolicy) (p : Prefix)
    → let s = apply peer u rib policy in replay s.out.changes (view rib) (key p) ≡ best s.rib p
unfolding best
apply-replay peer u rib policy p =
    ap (λ (v : View). v (key p))
      (apply_inv peer (Tracks (view rib)) (withdraw_one-Tracks (view rib) peer)
        (announce_one-Tracks (view rib) peer) u rib policy refl)

-- Replaying the changes of the purge of a peer over the best paths before gives the best path of
-- every prefix after.
pub purge_peer-replay :
    (peer : Text) (rib : LocRib) (policy : ImportPolicy) (p : Prefix)
    → let s = purge_peer peer rib policy in replay s.out.changes (view rib) (key p) ≡ best s.rib p
unfolding best
purge_peer-replay peer rib policy p =
    ap (λ (v : View). v (key p))
      (purge_inv peer (Tracks (view rib)) (withdraw_one-Tracks (view rib) peer) rib policy refl)
