-- ===== src/Dn42/Policy/Admit.antt =====
-- What `ImportPolicy::admit` lets through, and the prefix limit.
use landscape_rill.Base.{
  ℕ, ◌+◌, ◌-◌, ◌≡◌, refl, ◌↔◌, inl, inr, Bool, true, false, not, Option, none, some, any, In, ok,
  ◌>>◌, guard, arith, ◌==◌, ==_iff, Bool-cases,
}
use landscape_rill.Base.Filters.{any-true, any_of_In, any-false, any-false_of}
use landscape_rill.Route.Prefix.{Prefix, IpAddr, is_covered_by}
use landscape_rill.Dn42.BgpPath.{BgpPath}
use landscape_rill.Dn42.Policy.{
  ImportPolicy, ImportReject, admit, is_some, note_accepted, note_withdrawn, at_limit, is_over,
  over_limit, missing_next_hop, bogon, not_in_whitelist, as_loop,
}

-- The four conditions, in the words of the policy.
pub record IsAdmissible (p : ImportPolicy) (prefix : Prefix) (path : BgpPath) : Type 0 where
  pub hop : (ip : IpAddr) × (path.next_hop ≡ some ip)
  pub no_bogon : (b : Prefix) → In b p.bogons → is_covered_by prefix b ≡ false
  pub listed : (w : Prefix) × In w p.whitelist × (is_covered_by prefix w ≡ true)
  pub no_loop : ¬ (In p.own_as path.as_path)

-- Four guards in a row pass exactly if each does.
guards_iff :
    (a b c d : Bool) (e f g h : ImportReject)
    → ((guard a e >> (guard (not b) f >> (guard c g >> guard (not d) h))) ≡ ok tt)
      ↔ ((a ≡ true) × (b ≡ false) × (c ≡ true) × (d ≡ false))
guards_iff true true c d e f g h = ground arith
guards_iff true false true true e f g h = ground arith
guards_iff true false true false e f g h = ground arith
guards_iff true false false d e f g h = ground arith
guards_iff false b c d e f g h = ground arith

some_of_is_some {ℓ} : {A : Type ℓ} (o : Option A) → is_some o ≡ true → (a : A) × (o ≡ some a)
some_of_is_some none h = cc
some_of_is_some (some a) h = (a, refl)

pub admit_iff :
    (p : ImportPolicy) (prefix : Prefix) (path : BgpPath)
    → (admit p prefix path ≡ ok tt) ↔ IsAdmissible p prefix path
unfolding admit
admit_iff p prefix path =
    let own = λ (asn : ℕ). asn == p.own_as in
    let tests =
      guards_iff (is_some path.next_hop) (any (λ b. is_covered_by prefix b) p.bogons)
        (any (λ w. is_covered_by prefix w) p.whitelist) (any own path.as_path) missing_next_hop
        (bogon prefix) (not_in_whitelist prefix) (as_loop p.own_as) in
    (
      λ e.
          let (hop, clean, listed, fresh) = tests.0 e in
          record {
            hop = some_of_is_some path.next_hop hop;
            no_bogon = any-false (λ b. is_covered_by prefix b) p.bogons clean;
            listed = any-true (λ w. is_covered_by prefix w) p.whitelist listed;
            no_loop = λ i. let e = any-false own path.as_path fresh p.own_as i in ground arith;
          },
      λ a.
          let (ip, hop) = a.hop in
          let (w, found, covers) = a.listed in
          tests.1 (
            rw hop,
            any-false_of (λ b. is_covered_by prefix b) p.bogons a.no_bogon,
            any_of_In (λ w. is_covered_by prefix w) p.whitelist w found covers,
            any-false_of own path.as_path (λ asn i. other asn i a.no_loop),
          ),
    )
  where
    other :
        (asn : ℕ) → In asn path.as_path → ¬ (In p.own_as path.as_path) → (asn == p.own_as) ≡ false
    other asn i fresh = elim (Bool-cases (asn == p.own_as)) [
      | inl e ↦ absurd (fresh (rw ((==_iff asn p.own_as).0 e) at i))
      | inr e ↦ e
    ]

-- The counter is at most the configured limit.
abbrev pub IsWithin : ImportPolicy → Type 0
IsWithin p = over_limit p ≡ false

below_limit : (o : Option ℕ) (n : ℕ) → at_limit o n ≡ false → is_over o (n + 1) ≡ false
below_limit none n h = refl
below_limit (some max) n h = ground arith

less_over : (o : Option ℕ) (n : ℕ) → is_over o n ≡ false → is_over o (n - 1) ≡ false
less_over none n h = refl
less_over (some max) n h = ground arith

-- A success of `note_accepted` was below the limit, and changes the counter only.
pub note_accepted-ok :
    (p : ImportPolicy) {q : ImportPolicy}
    → note_accepted p ≡ ok q
    → (at_limit p.max_prefixes p.accepted ≡ false) × (q ≡ record p { accepted = p.accepted + 1 })
unfolding note_accepted
note_accepted-ok p e = elim (Bool-cases (at_limit p.max_prefixes p.accepted)) [
  | inl h ↦ cc (rw h at e)
  | inr h ↦ (h, cc (rw h at e))
]

pub note_accepted-IsWithin :
    (p : ImportPolicy) {q : ImportPolicy} → note_accepted p ≡ ok q → IsWithin q
unfolding over_limit
note_accepted-IsWithin p e =
    let (below, same) = note_accepted-ok p e in
    rw same (below_limit p.max_prefixes p.accepted below)

pub note_withdrawn-IsWithin : (p : ImportPolicy) → IsWithin p → IsWithin (note_withdrawn p)
unfolding note_withdrawn over_limit
note_withdrawn-IsWithin p w = less_over p.max_prefixes p.accepted w
