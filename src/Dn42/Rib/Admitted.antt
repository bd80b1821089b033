-- ===== src/Dn42/Rib/Admitted.antt =====
-- Nothing enters the table, and nothing is reported as learned, but what the import policy admits.
use landscape_rill.Base.{
  ℕ, ◌≡◌, refl, sym, ap, ◌⊎◌, inl, inr, not, Option, none, some, List, [], ◌∷◌, ◌++◌, In, find?,
  Bool-cases, Option-cases, ok,
}
use mathlib.Core.Path.{subst}
use landscape_rill.Base.Filters.{In-filter, In-find?, In-append}
use landscape_rill.Base.Assoc.{lookup, insert, erase, lookup-insert, lookup-erase}
use landscape_rill.Base.Text.{Text}
use landscape_rill.Route.Prefix.{Prefix}
use landscape_rill.Dn42.Message.{UpdateMsg}
use landscape_rill.Dn42.BgpPath.{BgpPath}
use landscape_rill.Dn42.Policy.{ImportPolicy, admit, note_accepted, note_withdrawn}
use landscape_rill.Dn42.Policy.Admit.{IsAdmissible, admit_iff, note_accepted-ok}
use landscape_rill.Dn42.Rib.{
  RouteChange, learned, withdrawn, key, key_eq, key_beq_iff, PeerPaths, LocRib, ApplyState, is_from,
  path_of, path_by, best_path, push_learned, learned_change, or_default, replace_slot, with_peers,
  announce_one, withdraw_one, apply, kept_peers,
}
use landscape_rill.Dn42.Rib.Rounds.{
  Announced, refused, repeated, replaced, stopped, added, Announced-round, entry, touched, Dropped,
  unknown, absent, last, same_best, new_best, Dropped-round, lowered,
}
use landscape_rill.Dn42.Rib.Loops.{apply_inv}

-- The rules, which no operation changes.
pub record SameRules (p q : ImportPolicy) : Type 0 where
  pub same_whitelist : q.whitelist ≡ p.whitelist
  pub same_bogons : q.bogons ≡ p.bogons
  pub same_own : q.own_as ≡ p.own_as

SameRules-refl : (p : ImportPolicy) → SameRules p p
SameRules-refl p = record { same_whitelist = refl; same_bogons = refl; same_own = refl }

-- Every stored path is admissible for its prefix.
abbrev pub AllAdmissible : ImportPolicy → LocRib → Type 0
AllAdmissible rules rib =
    (p : Prefix) (e : PeerPaths) (x : Text × BgpPath)
    → lookup (key p) rib ≡ some e
    → In x e.peers
    → IsAdmissible rules p x.1

-- Every reported path is admissible for its prefix.
abbrev pub AllReported : ImportPolicy → List RouteChange → Type 0
AllReported rules changes =
    (p : Prefix) (path : BgpPath) → In (learned p path) changes → IsAdmissible rules p path

pub record IsClean (rules : ImportPolicy) (s : ApplyState) : Type 0 where
  pub same : SameRules rules s.policy
  pub stored : AllAdmissible rules s.rib
  pub reported : AllReported rules s.out.changes

key-injective : (p q : Prefix) → key p ≡ key q → p ≡ q
key-injective p q e = λ i. record { bits = (e i).0; len = (e i).1; v4 = (e i).2 }

In-replace_slot :
    (peer : Text) (path : BgpPath) (x : Text × BgpPath) (xs : List (Text × BgpPath))
    → In x (replace_slot peer path xs)
    → In x xs ⊎ (x.1 ≡ path)
In-replace_slot peer path x [] i = elim i [ ]
In-replace_slot peer path x (y ∷ ys) i = elim (Bool-cases (is_from peer y)) [
  | inl h ↦ elim (let j : (x ≡ (y.0, path)) ⊎ In x ys = rw h at i in j) [
    | inl e ↦ inr (ap (λ (z : Text × BgpPath). z.1) e)
    | inr j ↦ inl (inr j)
  ]
  | inr h ↦ elim (let j : (x ≡ y) ⊎ In x (replace_slot peer path ys) = rw h at i in j) [
    | inl e ↦ inl (inl e)
    | inr j ↦ elim (In-replace_slot peer path x ys j) [ inl k ↦ inl (inr k) | inr k ↦ inr k ]
  ]
]

best_path-In :
    (e : PeerPaths) (path : BgpPath)
    → best_path e ≡ some path
    → (x : Text × BgpPath) × In x e.peers × (x.1 ≡ path)
unfolding best_path
best_path-In e path h = by e.best h
  where
    by :
        (o : Option Text)
        → path_by o e.peers ≡ some path
        → (x : Text × BgpPath) × In x e.peers × (x.1 ≡ path)
    by none h = cc
    by (some n) h = elim (Option-cases (find? (is_from n) e.peers)) [
      | inl f ↦ cc (ap path_of f, h)
      | inr (x, f) ↦ (x, (In-find? (is_from n) x e.peers f).0, cc (ap path_of f, h))
    ]

module _ (rules : ImportPolicy) (peer : Text) where
  -- What `admit` accepts under the current policy is admissible under the rules.
  admissible :
      (q : ImportPolicy) (p : Prefix) (path : BgpPath)
      → SameRules rules q
      → admit q p path ≡ ok tt
      → IsAdmissible rules p path
  admissible q p path r a =
      let i = (admit_iff q p path).0 a in
      record {
        hop = i.hop;
        no_bogon = λ b j. i.no_bogon b (subst (λ (l : List Prefix). In b l) (sym r.same_bogons) j);
        listed =
            let (w, found, covers) = i.listed in
            (w, subst (λ (l : List Prefix). In w l) r.same_whitelist found, covers);
        no_loop = λ j. i.no_loop (subst (λ (n : ℕ). In n path.as_path) (sym r.same_own) j);
      }

  -- Writing one entry.
  stored-insert :
      (rib : LocRib) (p : Prefix) (e : PeerPaths)
      → AllAdmissible rules rib
      → ((x : Text × BgpPath) → In x e.peers → IsAdmissible rules p x.1)
      → AllAdmissible rules (insert (key p) e rib)
  stored-insert rib p e all new q f x l i = elim (Bool-cases (key_eq.beq (key p) (key q))) [
    | inl h ↦
        let same : p ≡ q = key-injective p q ((key_beq_iff (key p) (key q)).0 h) in
        let entry_same : e ≡ f = cc (rw (lookup-insert (key p) (key q) e rib, h) at l) in
        subst (λ (z : Prefix). IsAdmissible rules z x.1) same
          (new x (subst (λ (z : PeerPaths). In x z.peers) (sym entry_same) i))
    | inr h ↦ all q f x (rw (lookup-insert (key p) (key q) e rib, h) at l) i
  ]

  stored-erase :
      (rib : LocRib) (p : Prefix)
      → AllAdmissible rules rib
      → AllAdmissible rules (erase (key p) rib)
  stored-erase rib p all q f x l i = elim (Bool-cases (key_eq.beq (key p) (key q))) [
    | inl h ↦ cc (rw (lookup-erase (key p) (key q) rib, h) at l)
    | inr h ↦ all q f x (rw (lookup-erase (key p) (key q) rib, h) at l) i
  ]

  entry-IsAdmissible :
      (s : ApplyState) (p : Prefix)
      → AllAdmissible rules s.rib
      → (x : Text × BgpPath) → In x (entry s p).peers
      → IsAdmissible rules p x.1
  entry-IsAdmissible s p all x i = at (lookup (key p) s.rib) refl i
    where
      at :
          (o : Option PeerPaths)
          → lookup (key p) s.rib ≡ o
          → In x (or_default o).peers
          → IsAdmissible rules p x.1
      at none l i = elim i [ ]
      at (some e) l i = all p e x l i

  -- Reporting the best path of an entry whose paths are admissible.
  reported-push :
      (changes : List RouteChange) (p : Prefix) (e : PeerPaths)
      → AllReported rules changes
      → ((x : Text × BgpPath) → In x e.peers → IsAdmissible rules p x.1)
      → AllReported rules (changes ++ push_learned p e)
  unfolding push_learned
  reported-push changes p e all new q path i = elim (In-append _ changes _ i) [
    | inl j ↦ all q path j
    | inr j ↦ elim (Option-cases (best_path e)) [
      | inl b ↦
          elim (subst (λ (o : Option BgpPath). In (learned q path) (learned_change p o)) b j) [ ]
      | inr (best, b) ↦
          elim (subst (λ (o : Option BgpPath). In (learned q path) (learned_change p o)) b j) [
            | inl c ↦
                let (x, found, chosen) = best_path-In e best b in
                let prefix_same : p ≡ q = cc c in
                let path_same : x.1 ≡ path = cc (c, chosen) in
                subst (λ (z : Prefix). IsAdmissible rules z path) prefix_same
                  (subst (λ (z : BgpPath). IsAdmissible rules p z) path_same (new x found))
            | inr k ↦ elim k [ ]
          ]
    ]
  ]

  with_peers-IsClean :
      (s : ApplyState) (p : Prefix) (peers : List (Text × BgpPath)) (policy : ImportPolicy)
      → IsClean rules s
      → SameRules rules policy
      → ((x : Text × BgpPath) → In x peers → IsAdmissible rules p x.1)
      → IsClean rules (with_peers s p peers policy)
  with_peers-IsClean s p peers policy c r new = record {
    same = r;
    stored = stored-insert s.rib p _ c.stored new;
    reported = reported-push s.out.changes p _ c.reported new;
  }

  announce_one-IsClean :
      (s : ApplyState) (p : Prefix) (path : BgpPath)
      → IsClean rules s
      → IsClean rules (announce_one peer s (p, path))
  announce_one-IsClean s p path c = round (Announced-round peer s p path)
    where
      old : (x : Text × BgpPath) → In x (entry s p).peers → IsAdmissible rules p x.1
      old = entry-IsAdmissible s p c.stored

      fresh : admit s.policy p path ≡ ok tt → IsAdmissible rules p path
      fresh a = admissible s.policy p path c.same a

      touched-IsClean : AllAdmissible rules (touched s p)
      touched-IsClean = stored-insert s.rib p (entry s p) c.stored old

      in_replaced :
          admit s.policy p path ≡ ok tt
          → (x : Text × BgpPath) → In x (replace_slot peer path (entry s p).peers)
          → IsAdmissible rules p x.1
      in_replaced a x i = elim (In-replace_slot peer path x (entry s p).peers i) [
        | inl j ↦ old x j
        | inr e ↦ subst (λ (z : BgpPath). IsAdmissible rules p z) (sym e) (fresh a)
      ]

      in_added :
          admit s.policy p path ≡ ok tt
          → (x : Text × BgpPath) → In x ((entry s p).peers ++ ((peer, path) ∷ []))
          → IsAdmissible rules p x.1
      in_added a x i = elim (In-append x (entry s p).peers ((peer, path) ∷ []) i) [
        | inl j ↦ old x j
        | inr (inl e) ↦ subst (λ (z : Text × BgpPath). IsAdmissible rules p z.1) (sym e) (fresh a)
        | inr (inr j) ↦ elim j [ ]
      ]

      counted : (q : ImportPolicy) → note_accepted s.policy ≡ ok q → SameRules rules q
      counted q n =
          let (_, e) = note_accepted-ok s.policy n in
          subst (SameRules rules) (sym e) (record {
            same_whitelist = c.same.same_whitelist;
            same_bogons = c.same.same_bogons;
            same_own = c.same.same_own;
          })

      round : {s' : ApplyState} → Announced peer s p path s' → IsClean rules s'
      round (refused reason a e) =
          subst (IsClean rules) (sym e)
            (record { same = c.same; stored = c.stored; reported = c.reported })
      round (repeated x a f b e) =
          subst (IsClean rules) (sym e)
            (record { same = c.same; stored = touched-IsClean; reported = c.reported })
      round (replaced x a f e) =
          subst (IsClean rules) (sym e) (with_peers-IsClean s p _ s.policy c c.same (in_replaced a))
      round (stopped reason a f n e) =
          subst (IsClean rules) (sym e)
            (record { same = c.same; stored = touched-IsClean; reported = c.reported })
      round (added policy a f n e) =
          subst (IsClean rules) (sym e)
            (with_peers-IsClean s p _ policy c (counted policy n) (in_added a))

  withdraw_one-IsClean :
      (s : ApplyState) (p : Prefix) → IsClean rules s → IsClean rules (withdraw_one peer s p)
  unfolding note_withdrawn
  withdraw_one-IsClean s p c = round (Dropped-round peer s p)
    where
      lower : SameRules rules (lowered s)
      lower = record {
        same_whitelist = c.same.same_whitelist;
        same_bogons = c.same.same_bogons;
        same_own = c.same.same_own;
      }

      kept :
          (e : PeerPaths) (xs : List (Text × BgpPath))
          → lookup (key p) s.rib ≡ some e
          → kept_peers peer e ≡ xs
          → (x : Text × BgpPath) → In x xs
          → IsAdmissible rules p x.1
      kept e xs l k x i =
          let j = subst (λ (t : List (Text × BgpPath)). In x t) (sym k) i in
          c.stored p e x l (In-filter (λ y. not (is_from peer y)) x e.peers j).0

      more :
          (changes : List RouteChange)
          → AllReported rules changes
          → AllReported rules (s.out.changes ++ changes)
      more changes h q path i = elim (In-append _ s.out.changes changes i) [
        | inl j ↦ c.reported q path j
        | inr j ↦ h q path j
      ]

      round : {s' : ApplyState} → Dropped peer s p s' → IsClean rules s'
      round (unknown l e) = subst (IsClean rules) (sym e) c
      round (absent x l n e) = subst (IsClean rules) (sym e) c
      round (last x l n k e) = subst (IsClean rules) (sym e) (record {
        same = lower;
        stored = stored-erase s.rib p c.stored;
        reported = more (withdrawn p ∷ []) (λ q path i. elim i [ inl d ↦ cc | inr j ↦ elim j [ ] ]);
      })
      round (same_best x y ys l n k b e) = subst (IsClean rules) (sym e) (record {
        same = lower;
        stored = stored-insert s.rib p _ c.stored (kept x (y ∷ ys) l k);
        reported = more [] (λ q path i. elim i [ ]);
      })
      round (new_best x y ys l n k e) =
          subst (IsClean rules) (sym e)
            (with_peers-IsClean s p (y ∷ ys) (lowered s) c lower (kept x (y ∷ ys) l k))

-- From a table of admissible paths, `apply` ends in one, and every path that it reports as learned
-- is admissible: it has a next hop, its prefix is covered by the whitelist and by no bogon, as
-- `is_covered_by` of a release build answers, and the own AS number is not in its AS path.
pub apply-admissible :
    (peer : Text) (u : UpdateMsg) (rib : LocRib) (policy : ImportPolicy)
    → AllAdmissible policy rib
    → let s = apply peer u rib policy in
      AllAdmissible policy s.rib × AllReported policy s.out.changes
apply-admissible peer u rib policy h =
    let c =
      apply_inv peer (IsClean policy) (withdraw_one-IsClean policy peer)
        (announce_one-IsClean policy peer) u rib policy
        (record { same = SameRules-refl policy; stored = h; reported = λ q path i. elim i [ ] }) in
    (c.stored, c.reported)
