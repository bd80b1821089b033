-- ===== src/Dn42/Rib/Purge.antt =====
-- What `purge_peer` is for: nothing of the peer is left in the table.
use landscape_rill.Base.{
  ◌≡◌, refl, sym, ap, ◌∙◌, ◌⊎◌, inl, inr, false, not, none, some, List, [], ◌∷◌, map, In, All,
  filter, find?, any, Bool-cases, arith,
}
use mathlib.Core.Path.{subst}
use landscape_rill.Base.Assoc.{lookup, insert, keys, lookup-insert, lookup-erase, In-keys}
use landscape_rill.Base.Filters.{length-filter-not}
use landscape_rill.Base.Text.{Text}
use landscape_rill.Route.Prefix.{Prefix, IsCanonical, expect}
use landscape_rill.Route.Prefix.Canonical.{new_canonical}
use landscape_rill.Dn42.Policy.{ImportPolicy}
use landscape_rill.Dn42.Rib.{
  PfxKey, key, key_eq, PeerPaths, LocRib, ApplyState, is_from, start, withdraw_one, withdraw_loop,
  purge_peer, prefix_of, kept_peers, select_best,
}
use landscape_rill.Dn42.Rib.Rounds.{
  Dropped, unknown, absent, last, same_best, new_best, Dropped-round,
}
use landscape_rill.Dn42.Rib.Names.{Paths}

-- The keys are those of prefixes that `Prefix::new` made, as every insertion writes them.
abbrev pub IsPrefixKey : PfxKey → Type 0
IsPrefixKey k = IsCanonical (record { bits = k.0; len = k.1; v4 = k.2 })

key-prefix_of : (k : PfxKey) → IsPrefixKey k → key (prefix_of k) ≡ k
key-prefix_of k c =
    ap (λ o. key (expect o)) (new_canonical (record { bits = k.0; len = k.1; v4 = k.2 }) c)

find?-filtered :
    (peer : Text) (xs : Paths) → find? (is_from peer) (filter (λ x. not (is_from peer x)) xs) ≡ none
find?-filtered peer [] = refl
find?-filtered peer (x ∷ xs) = ground (arith, find?-filtered peer xs)

find?-any :
    (peer : Text) (xs : Paths) → any (is_from peer) xs ≡ false → find? (is_from peer) xs ≡ none
find?-any peer [] h = refl
find?-any peer (x ∷ xs) h = ground (arith, find?-any peer xs)

module _ (peer : Text) where
  HasNone : PeerPaths → Type 0
  HasNone e = find? (is_from peer) e.peers ≡ none

  -- Only the entries of the keys still to come have paths of the peer.
  LeftIn : List PfxKey → ApplyState → Type 0
  LeftIn ks s = (k : PfxKey) (e : PeerPaths) → lookup k s.rib ≡ some e → HasNone e ⊎ In k ks

  -- A round that clears the entry of its prefix and leaves the others.
  cleared :
      (s s' : ApplyState) (p : Prefix) (ks : List PfxKey)
      → LeftIn (key p ∷ ks) s
      → ((e : PeerPaths) → lookup (key p) s'.rib ≡ some e → HasNone e)
      → ((j : PfxKey) → key_eq.beq (key p) j ≡ false → lookup j s'.rib ≡ lookup j s.rib)
      → LeftIn ks s'
  unfolding LeftIn
  cleared s s' p ks left own others k e l = elim (Bool-cases (key_eq.beq (key p) k)) [
    | inl h ↦
        let same = (key_eq.beq_iff (key p) k).0 h in
        inl (own e (ap (λ j. lookup j s'.rib) same ∙ l))
    | inr h ↦ elim (left k e (sym (others k h) ∙ l)) [
      | inl clean ↦ inl clean
      | inr (inl same) ↦ cc (sym ((key_eq.beq_iff (key p) k).1 (sym same)), h)
      | inr (inr later) ↦ inr later
    ]
  ]

  withdraw_one-LeftIn :
      (s : ApplyState) (p : Prefix) (ks : List PfxKey)
      → LeftIn (key p ∷ ks) s
      → LeftIn ks (withdraw_one peer s p)
  unfolding HasNone
  withdraw_one-LeftIn s p ks left = round (Dropped-round peer s p)
    where
      written :
          (s' : ApplyState) (x e' : PeerPaths)
          → s'.rib ≡ insert (key p) e' s.rib
          → kept_peers peer x ≡ e'.peers
          → LeftIn ks s'
      written s' x e' r k =
          cleared s s' p ks left
            (λ e l.
              let at_key = lookup-insert (key p) (key p) e' s.rib in
              let self = (key_eq.beq_iff (key p) (key p)).1 refl in
              let same : e' ≡ e = cc (rw (r, at_key, self) at l) in
              subst HasNone same
                (ap (λ t. find? (is_from peer) t) (sym k) ∙ find?-filtered peer x.peers))
            (λ j h. rw (r, lookup-insert (key p) j e' s.rib, h))

      round : {s' : ApplyState} → Dropped peer s p s' → LeftIn ks s'
      round (unknown l e) =
          subst (LeftIn ks) (sym e) (cleared s s p ks left (λ x h. cc (l, h)) (λ j h. refl))
      round (absent x l n e) = subst (LeftIn ks) (sym e) (
          cleared s s p ks left
            (λ y h.
              let same : x ≡ y = cc (l, h) in
              subst HasNone same (
                find?-any peer x.peers (sym (length-filter-not (is_from peer) x.peers) ∙ ap not n)))
            (λ j h. refl))
      round (last x l n k e) = subst (LeftIn ks) (sym e) (
          cleared s _ p ks left
            (λ y h.
              let self = (key_eq.beq_iff (key p) (key p)).1 refl in
              cc (rw (lookup-erase (key p) (key p) s.rib, self) at h))
            (λ j h. rw (lookup-erase (key p) j s.rib, h)))
      round (same_best x y ys l n k b e) =
          subst (LeftIn ks) (sym e) (written _ x (record x { peers = y ∷ ys }) refl k)
      round (new_best x y ys l n k e) =
          subst (LeftIn ks) (sym e)
            (written _ x (record { peers = y ∷ ys; best = select_best (y ∷ ys) }) refl k)

  withdraw_loop-LeftIn :
      (s : ApplyState) (ks : List PfxKey)
      → All IsPrefixKey ks
      → LeftIn ks s
      → LeftIn [] (withdraw_loop peer s (map prefix_of ks))
  unfolding withdraw_loop
  withdraw_loop-LeftIn s [] c left = left
  withdraw_loop-LeftIn s (k ∷ ks) c left =
      withdraw_loop-LeftIn (withdraw_one peer s (prefix_of k)) ks c.1 (
        withdraw_one-LeftIn s (prefix_of k) ks
          (subst (λ j. LeftIn (j ∷ ks) s) (sym (key-prefix_of k c.0)) left))

-- Behind `purge_peer` no entry of the table has a path of the peer, where the keys were those of
-- prefixes.
pub purge_peer-gone :
    (peer : Text) (rib : LocRib) (policy : ImportPolicy)
    → All IsPrefixKey (keys rib)
    → (k : PfxKey) (e : PeerPaths) → lookup k (purge_peer peer rib policy).rib ≡ some e
    → find? (is_from peer) e.peers ≡ none
unfolding purge_peer LeftIn HasNone
purge_peer-gone peer rib policy c k e l =
    let first : LeftIn peer (keys rib) (start rib policy) =
      λ j f h. elim (In-keys j rib) [ inl i ↦ inr i | inr n ↦ cc (n, h) ] in
    elim (withdraw_loop-LeftIn peer (start rib policy) (keys rib) c first k e l) [
      | inl clean ↦ clean
      | inr i ↦ elim i [ ]
    ]
