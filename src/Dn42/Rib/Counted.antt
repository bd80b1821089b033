-- ===== src/Dn42/Rib/Counted.antt =====
-- The well-formed table: distinct keys, one path for each peer of an entry, the best peer up to
-- date, and as many paths as the policy has counted, which the prefix limit bounds.
use landscape_rill.Base.{
  ℕ, ◌+◌, ◌≤◌, ◌≡◌, refl, sym, ap, ◌∙◌, inl, inr, true, false, Option, none, some, [], ◌∷◌, In,
  Bool-cases, ok, arith, length, length-append, ◌==◌,
}
use mathlib.Core.Path.{subst}
use landscape_rill.Base.Assoc.{
  lookup, insert, erase, lookup-insert, lookup-erase, IsMap, insert-IsMap, erase-IsMap, total, at,
  total-insert, total-erase,
}
use landscape_rill.Base.Text.{Text}
use landscape_rill.Route.Prefix.{Prefix}
use landscape_rill.Dn42.Message.{UpdateMsg}
use landscape_rill.Dn42.BgpPath.{BgpPath}
use landscape_rill.Dn42.Policy.{ImportPolicy, note_accepted, note_withdrawn}
use landscape_rill.Dn42.Policy.Admit.{
  IsWithin, note_accepted-ok, note_accepted-IsWithin, note_withdrawn-IsWithin,
}
use landscape_rill.Dn42.Rib.{
  PfxKey, key, key_eq, PeerPaths, LocRib, ApplyState, select_best, min_by, name_of, not_after,
  path_of, path_by, best_at, best, best_path, or_default, announce_one, withdraw_one, apply,
  purge_peer, kept_peers,
}
use landscape_rill.Dn42.Rib.Rounds.{
  Announced, refused, repeated, replaced, stopped, added, Announced-round, entry, touched, Dropped,
  unknown, absent, last, same_best, new_best, Dropped-round, lowered,
}
use landscape_rill.Dn42.Rib.Loops.{apply_inv, purge_inv}
use landscape_rill.Dn42.Rib.Names.{
  Paths, UniqueNames, UniqueNames-append, UniqueNames-replace_slot, length-replace_slot,
  UniqueNames-drop, length-drop_peer, find?-unique,
}
use landscape_rill.Dn42.Rib.Select.{option_text_eq-eq, min_by-some}

pub record IsEntry (e : PeerPaths) : Type 0 where
  pub unique : UniqueNames e.peers
  pub chosen : e.best ≡ select_best e.peers

-- How many paths an entry holds.
abbrev pub size : PeerPaths → ℕ
size e = length e.peers

pub record IsValid (rib : LocRib) (policy : ImportPolicy) : Type 0 where
  pub distinct : IsMap rib
  pub entries : (k : PfxKey) (e : PeerPaths) → lookup k rib ≡ some e → IsEntry e
  pub counted : policy.accepted ≡ total size rib
  pub within : IsWithin policy

abbrev Valid : ApplyState → Type 0
Valid s = IsValid s.rib s.policy

module _ (rib : LocRib)
    (entries : (k : PfxKey) (e : PeerPaths) → lookup k rib ≡ some e → IsEntry e) where
  entries-insert :
      (k : PfxKey) (e : PeerPaths)
      → IsEntry e
      → (j : PfxKey) (f : PeerPaths) → lookup j (insert k e rib) ≡ some f
      → IsEntry f
  entries-insert k e v j f l = elim (Bool-cases (key_eq.beq k j)) [
    | inl h ↦ subst IsEntry (cc (rw (lookup-insert k j e rib, h) at l)) v
    | inr h ↦ entries j f (rw (lookup-insert k j e rib, h) at l)
  ]

  entries-erase : (k j : PfxKey) (f : PeerPaths) → lookup j (erase k rib) ≡ some f → IsEntry f
  entries-erase k j f l = elim (Bool-cases (key_eq.beq k j)) [
    | inl h ↦ cc (rw (lookup-erase k j rib, h) at l)
    | inr h ↦ entries j f (rw (lookup-erase k j rib, h) at l)
  ]

  default-IsEntry : (k : PfxKey) → IsEntry (or_default (lookup k rib))
  unfolding select_best
  default-IsEntry k = go (lookup k rib) refl
    where
      go : (o : Option PeerPaths) → lookup k rib ≡ o → IsEntry (or_default o)
      go none l = record { unique = tt; chosen = refl }
      go (some e) l = entries k e l

at-or_default : (o : Option PeerPaths) → at size o ≡ size (or_default o)
at-or_default none = refl
at-or_default (some e) = refl

-- Writing an entry, with a policy that counts its paths.
write :
    (s : ApplyState) (p : Prefix) (e : PeerPaths) (policy : ImportPolicy)
    → Valid s
    → IsEntry e
    → policy.accepted + size (entry s p) ≡ s.policy.accepted + size e
    → IsWithin policy
    → IsValid (insert (key p) e s.rib) policy
write s p e policy v i n w = record {
  distinct = insert-IsMap (key p) e s.rib v.distinct;
  entries = entries-insert s.rib v.entries (key p) e i;
  counted = omega (
    arith,
    n,
    v.counted,
    total-insert size (key p) e s.rib,
    at-or_default (lookup (key p) s.rib),
  );
  within = w;
}

made-IsEntry :
    (peers : Paths)
    → UniqueNames peers
    → IsEntry (record { peers = peers; best = select_best peers })
made-IsEntry peers u = record { unique = u; chosen = refl }

module _ (peer : Text) where
  announce_one-IsValid :
      (s : ApplyState) (p : Prefix) (path : BgpPath)
      → Valid s
      → Valid (announce_one peer s (p, path))
  announce_one-IsValid s p path v = round (Announced-round peer s p path)
    where
      old : IsEntry (entry s p)
      old = default-IsEntry s.rib v.entries (key p)

      counted :
          (q : ImportPolicy) → note_accepted s.policy ≡ ok q → q.accepted ≡ s.policy.accepted + 1
      counted q n = ap (λ (r : ImportPolicy). r.accepted) (note_accepted-ok s.policy n).1

      touched-IsValid : IsValid (touched s p) s.policy
      touched-IsValid = write s p (entry s p) s.policy v old refl v.within

      round : {s' : ApplyState} → Announced peer s p path s' → Valid s'
      round (refused reason a e) = subst Valid (sym e) (record {
        distinct = v.distinct;
        entries = v.entries;
        counted = v.counted;
        within = v.within;
      })
      round (repeated x a f b e) = subst Valid (sym e) touched-IsValid
      round (replaced x a f e) = subst Valid (sym e) (
          write s p _ s.policy v (made-IsEntry _ (UniqueNames-replace_slot peer path _ old.unique))
            (omega (arith, length-replace_slot peer path (entry s p).peers)) v.within)
      round (stopped reason a f n e) = subst Valid (sym e) touched-IsValid
      round (added policy a f n e) = subst Valid (sym e) (
          write s p _ policy v (made-IsEntry _ (UniqueNames-append peer path _ f old.unique))
            (omega (arith, counted policy n, length-append (entry s p).peers ((peer, path) ∷ [])))
            (note_accepted-IsWithin s.policy n))

  withdraw_one-IsValid : (s : ApplyState) (p : Prefix) → Valid s → Valid (withdraw_one peer s p)
  unfolding note_withdrawn
  withdraw_one-IsValid s p v = round (Dropped-round peer s p)
    where
      low : IsWithin (lowered s)
      low = note_withdrawn-IsWithin s.policy v.within

      -- The peer's one path is gone, and the counter was not at zero.
      shorter :
          (x : PeerPaths) (kept : Paths)
          → lookup (key p) s.rib ≡ some x
          → (length (kept_peers peer x) == length x.peers) ≡ false
          → kept_peers peer x ≡ kept
          → UniqueNames kept
            × (length kept + 1 ≡ size (entry s p))
            × (size (entry s p) ≤ s.policy.accepted)
      shorter x kept l n k =
          let i = v.entries (key p) x l in
          let found : size x ≡ size (entry s p) = ap (λ o. size (or_default o)) (sym l) in
          (
            subst UniqueNames k (UniqueNames-drop peer x.peers i.unique),
            omega (
              arith,
              found,
              length-drop_peer peer x.peers i.unique n,
              ap (λ (t : Paths). length t) k,
            ),
            omega (
              arith,
              v.counted,
              total-erase size (key p) s.rib v.distinct,
              at-or_default (lookup (key p) s.rib),
            ),
          )

      rewritten :
          (x : PeerPaths) (kept : Paths) (best : Option Text)
          → lookup (key p) s.rib ≡ some x
          → (length (kept_peers peer x) == length x.peers) ≡ false
          → kept_peers peer x ≡ kept
          → best ≡ select_best kept
          → IsValid (insert (key p) (record { peers = kept; best = best }) s.rib) (lowered s)
      rewritten x kept best l n k b =
          let (u, fewer, pos) = shorter x kept l n k in
          write s p (record { peers = kept; best = best }) (lowered s) v
            (record { unique = u; chosen = b }) (omega (arith, fewer, pos)) low

      round : {s' : ApplyState} → Dropped peer s p s' → Valid s'
      round (unknown l e) = subst Valid (sym e) v
      round (absent x l n e) = subst Valid (sym e) v
      round (last x l n k e) =
          let (u, fewer, pos) = shorter x [] l n k in
          subst Valid (sym e) (record {
            distinct = erase-IsMap (key p) s.rib v.distinct;
            entries = entries-erase s.rib v.entries (key p);
            counted = omega (
              arith,
              fewer,
              pos,
              v.counted,
              total-erase size (key p) s.rib v.distinct,
              at-or_default (lookup (key p) s.rib),
            );
            within = low;
          })
      round (same_best x y ys l n k b e) =
          subst Valid (sym e)
            (rewritten x (y ∷ ys) x.best l n k (sym (option_text_eq-eq _ x.best b)))
      round (new_best x y ys l n k e) =
          subst Valid (sym e) (rewritten x (y ∷ ys) (select_best (y ∷ ys)) l n k refl)

-- `apply` keeps the table well formed: the counter stays the number of stored paths, and within the
-- configured prefix limit.
pub apply-IsValid :
    (peer : Text) (u : UpdateMsg) (rib : LocRib) (policy : ImportPolicy)
    → IsValid rib policy
    → let s = apply peer u rib policy in IsValid s.rib s.policy
apply-IsValid peer u rib policy v =
    apply_inv peer Valid (withdraw_one-IsValid peer) (announce_one-IsValid peer) u rib policy v

-- `purge_peer` keeps the table well formed.
pub purge_peer-IsValid :
    (peer : Text) (rib : LocRib) (policy : ImportPolicy)
    → IsValid rib policy
    → let s = purge_peer peer rib policy in IsValid s.rib s.policy
purge_peer-IsValid peer rib policy v = purge_inv peer Valid (withdraw_one-IsValid peer) rib policy v

-- In a well-formed table the best path of a prefix is a stored path of some peer, and no stored
-- path of the prefix is shorter, nor equally long from a peer with an earlier name.
pub best-least :
    (rib : LocRib) (policy : ImportPolicy) (p : Prefix) (e : PeerPaths) (path : BgpPath)
    → IsValid rib policy
    → lookup (key p) rib ≡ some e
    → best rib p ≡ some path
    → (peer : Text) × In (peer, path) e.peers
      × ((y : Text × BgpPath) → In y e.peers → not_after (peer, path) y ≡ true)
unfolding best best_path select_best
best-least rib policy p e path v l h = go (min_by e.peers) refl
  where
    i : IsEntry e
    i = v.entries (key p) e l

    path_at : path_by (select_best e.peers) e.peers ≡ some path
    path_at = ap (λ (o : Option Text). path_by o e.peers) (sym i.chosen) ∙ ap best_at (sym l) ∙ h

    go :
        (o : Option (Text × BgpPath))
        → min_by e.peers ≡ o
        → (peer : Text) × In (peer, path) e.peers
          × ((y : Text × BgpPath) → In y e.peers → not_after (peer, path) y ≡ true)
    go none m = cc (ap (λ o. path_by (name_of o) e.peers) (sym m) ∙ path_at)
    go (some b) m =
        let (found, least) = min_by-some e.peers b m in
        let same : b.1 ≡ path = cc (
          ap path_of (sym (find?-unique e.peers b i.unique found))
          ∙ ap (λ o. path_by (name_of o) e.peers) (sym m)
          ∙ path_at) in
        (
          b.0,
          subst (λ (z : BgpPath). In (b.0, z) e.peers) same found,
          subst (λ (z : BgpPath). (y : Text × BgpPath) → In y e.peers → not_after (b.0, z) y ≡ true)
              same least,
        )
