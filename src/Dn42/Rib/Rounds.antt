-- ===== src/Dn42/Rib/Rounds.antt =====
-- The rounds of the two loops of `apply`, sorted by the branch that they take. Every invariant of
-- the table is proved branch by branch.
use landscape_rill.Base.{
  ◌≡◌, refl, sym, ap, ◌∙◌, ◌⊎◌, inl, inr, true, false, Option, none, some, List, [], ◌∷◌, ◌++◌,
  find?, Bool-cases, Option-cases, Result-cases, ok, err, length, ◌==◌,
}
use mathlib.Core.Path.{subst}
use landscape_rill.Base.Assoc.{lookup, insert, erase}
use landscape_rill.Base.Text.{Text}
use landscape_rill.Route.Prefix.{Prefix}
use landscape_rill.Dn42.BgpPath.{BgpPath, path_eq}
use landscape_rill.Dn42.Policy.{ImportPolicy, ImportReject, admit, note_accepted, note_withdrawn}
use landscape_rill.Dn42.Rib.{
  withdrawn, key, key_eq, PeerPaths, LocRib, ApplyState, select_best, is_from, or_default,
  replace_slot, with_peers, reject, announce_admitted, announce_one, RouteChange, kept_peers,
  remove_kept, remove_at, note_removal, remove_one, withdraw_one, option_text_eq,
}

-- The entry that `entry(k).or_default()` gives.
abbrev pub entry : ApplyState → Prefix → PeerPaths
entry s p = or_default (lookup (key p) s.rib)

-- The table with that entry written, which changes no path.
abbrev pub touched : ApplyState → Prefix → LocRib
touched s p = insert (key p) (entry s p) s.rib

-- A round of the first loop.
pub data Announced (peer : Text) (s : ApplyState) (p : Prefix) (path : BgpPath) (s' : ApplyState)
    : Type 0 where
  refused :
      (reason : ImportReject)
      → admit s.policy p path ≡ err reason
      → s' ≡ reject s p reason
      → Announced peer s p path s'
  repeated :
      (x : Text × BgpPath)
      → admit s.policy p path ≡ ok tt
      → find? (is_from peer) (entry s p).peers ≡ some x
      → path_eq x.1 path ≡ true
      → s' ≡ record s { rib = touched s p }
      → Announced peer s p path s'
  replaced :
      (x : Text × BgpPath)
      → admit s.policy p path ≡ ok tt
      → find? (is_from peer) (entry s p).peers ≡ some x
      → s' ≡ with_peers s p (replace_slot peer path (entry s p).peers) s.policy
      → Announced peer s p path s'
  stopped :
      (reason : ImportReject)
      → admit s.policy p path ≡ ok tt
      → find? (is_from peer) (entry s p).peers ≡ none
      → note_accepted s.policy ≡ err reason
      → s' ≡ record s { rib = touched s p; out = record (s.out) { max_prefix_exceeded = true } }
      → Announced peer s p path s'
  added :
      (policy : ImportPolicy)
      → admit s.policy p path ≡ ok tt
      → find? (is_from peer) (entry s p).peers ≡ none
      → note_accepted s.policy ≡ ok policy
      → s' ≡ with_peers s p ((entry s p).peers ++ ((peer, path) ∷ [])) policy
      → Announced peer s p path s'

module _ (peer : Text) (s : ApplyState) (p : Prefix) where
  admitted_round :
      (path : BgpPath)
      → admit s.policy p path ≡ ok tt
      → Announced peer s p path (announce_admitted peer s p path)
  admitted_round path a = elim (Option-cases (find? (is_from peer) (entry s p).peers)) [
    | inl f ↦ elim (Result-cases (note_accepted s.policy)) [
      | inl (policy, n) ↦
          added policy a f n
            (unfold announce_admitted in rw (f, announce_admitted) (rw (n, announce_admitted)))
      | inr (reason, n) ↦
          stopped reason a f n
            (unfold announce_admitted in rw (f, announce_admitted) (rw (n, announce_admitted)))
    ]
    | inr (x, f) ↦ elim (Bool-cases (path_eq x.1 path)) [
      | inl e ↦
          repeated x a f e
            (unfold announce_admitted in rw (f, announce_admitted) (rw (e, announce_admitted)))
      | inr e ↦
          replaced x a f
            (unfold announce_admitted in rw (f, announce_admitted) (rw (e, announce_admitted)))
    ]
  ]

  -- Every round of the first loop takes one of the five branches.
  pub Announced-round : (path : BgpPath) → Announced peer s p path (announce_one peer s (p, path))
  Announced-round path = elim (Result-cases (admit s.policy p path)) [
    | inl (tt, a) ↦
        let same : announce_one peer s (p, path) ≡ announce_admitted peer s p path =
          unfold announce_one in rw (a, announce_one) in
        subst (Announced peer s p path) (sym same) (admitted_round path a)
    | inr (reason, a) ↦ refused reason a (unfold announce_one in rw (a, announce_one))
  ]

abbrev pub lowered : ApplyState → ImportPolicy
lowered s = note_withdrawn s.policy

-- A round of the second loop.
pub data Dropped (peer : Text) (s : ApplyState) (p : Prefix) (s' : ApplyState) : Type 0 where
  unknown : lookup (key p) s.rib ≡ none → s' ≡ s → Dropped peer s p s'
  absent :
      (e : PeerPaths)
      → lookup (key p) s.rib ≡ some e
      → (length (kept_peers peer e) == length e.peers) ≡ true
      → s' ≡ s
      → Dropped peer s p s'
  last :
      (e : PeerPaths)
      → lookup (key p) s.rib ≡ some e
      → (length (kept_peers peer e) == length e.peers) ≡ false
      → kept_peers peer e ≡ []
      → s' ≡ record {
        rib = erase (key p) s.rib;
        policy = lowered s;
        out = record (s.out) { changes = s.out.changes ++ (withdrawn p ∷ []) };
      }
      → Dropped peer s p s'
  same_best :
      (e : PeerPaths) (x : Text × BgpPath) (xs : List (Text × BgpPath))
      → lookup (key p) s.rib ≡ some e
      → (length (kept_peers peer e) == length e.peers) ≡ false
      → kept_peers peer e ≡ x ∷ xs
      → option_text_eq (select_best (x ∷ xs)) e.best ≡ true
      → s' ≡ record {
        rib = insert (key p) (record e { peers = x ∷ xs }) s.rib;
        policy = lowered s;
        out = record (s.out) { changes = s.out.changes ++ [] };
      }
      → Dropped peer s p s'
  new_best :
      (e : PeerPaths) (x : Text × BgpPath) (xs : List (Text × BgpPath))
      → lookup (key p) s.rib ≡ some e
      → (length (kept_peers peer e) == length e.peers) ≡ false
      → kept_peers peer e ≡ x ∷ xs
      → s' ≡ with_peers s p (x ∷ xs) (lowered s)
      → Dropped peer s p s'

List-cases {ℓ} : {A : Type ℓ} (l : List A) → (l ≡ []) ⊎ ((x : A) × (xs : List A) × (l ≡ x ∷ xs))
List-cases [] = inl refl
List-cases (x ∷ xs) = inr (x, xs, refl)

noted : ApplyState → LocRib × Option (List RouteChange) → ApplyState
noted s r = note_removal s r.0 r.1

-- The tests of `remove_kept`, in order.
module _ (s : ApplyState) (p : Prefix) (e : PeerPaths) where
  kept_all :
      (kept : List (Text × BgpPath))
      → (length kept == length e.peers) ≡ true
      → noted s (remove_kept s.rib p e kept) ≡ s
  unfolding noted remove_kept
  kept_all kept c = rw c

  kept_none :
      (length {A = Text × BgpPath} [] == length e.peers) ≡ false
      → noted s (remove_kept s.rib p e [])
        ≡ note_removal s (erase (key p) s.rib) (some (withdrawn p ∷ []))
  unfolding noted remove_kept
  kept_none c = rw c

  kept_same :
      (x : Text × BgpPath) (xs : List (Text × BgpPath))
      → (length (x ∷ xs) == length e.peers) ≡ false
      → option_text_eq (select_best (x ∷ xs)) e.best ≡ true
      → noted s (remove_kept s.rib p e (x ∷ xs))
        ≡ note_removal s (insert (key p) (record e { peers = x ∷ xs }) s.rib) (some [])
  unfolding noted remove_kept
  kept_same x xs c b = rw c (rw b)

  kept_other :
      (x : Text × BgpPath) (xs : List (Text × BgpPath))
      → (length (x ∷ xs) == length e.peers) ≡ false
      → option_text_eq (select_best (x ∷ xs)) e.best ≡ false
      → noted s (remove_kept s.rib p e (x ∷ xs)) ≡ with_peers s p (x ∷ xs) (lowered s)
  unfolding noted remove_kept
  kept_other x xs c b = rw c (rw b)

module _ (peer : Text) (s : ApplyState) (p : Prefix) where
  withdraw_found :
      (e : PeerPaths) (kept : List (Text × BgpPath))
      → lookup (key p) s.rib ≡ some e
      → kept_peers peer e ≡ kept
      → withdraw_one peer s p ≡ noted s (remove_kept s.rib p e kept)
  unfolding withdraw_one remove_one noted
  withdraw_found e kept l k =
      ap (λ (o : Option PeerPaths). noted s (remove_at peer s.rib p o)) l
      ∙ ap (λ (t : List (Text × BgpPath)). noted s (remove_kept s.rib p e t)) k

  -- Every round of the second loop takes one of the five branches.
  pub Dropped-round : Dropped peer s p (withdraw_one peer s p)
  unfolding withdraw_one remove_one
  Dropped-round = elim (Option-cases (lookup (key p) s.rib)) [
    | inl l ↦ unknown l (
        ap (λ (o : Option PeerPaths). (let r = remove_at peer s.rib p o in note_removal s r.0 r.1))
          l)
    | inr (e, l) ↦ elim (Bool-cases (length (kept_peers peer e) == length e.peers)) [
      | inl c ↦
          absent e l c
            (withdraw_found e (kept_peers peer e) l refl ∙ kept_all s p e (kept_peers peer e) c)
      | inr c ↦ elim (List-cases (kept_peers peer e)) [
        | inl k ↦ last e l c k (withdraw_found e [] l k ∙ kept_none s p e (rw k at c))
        | inr (x, xs, k) ↦ elim (Bool-cases (option_text_eq (select_best (x ∷ xs)) e.best)) [
          | inl b ↦
              same_best e x xs l c k b
                (withdraw_found e (x ∷ xs) l k ∙ kept_same s p e x xs (rw k at c) b)
          | inr b ↦
              new_best e x xs l c k
                (withdraw_found e (x ∷ xs) l k ∙ kept_other s p e x xs (rw k at c) b)
        ]
      ]
    ]
  ]
