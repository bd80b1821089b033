-- ===== src/Dn42/Fsm/Open.antt =====
-- `on_open`: which OPEN is accepted, and the hold time that is agreed on.
use landscape_rill.Base.{
  ℕ, ◌*◌, ◌/◌, ◌≤◌, ◌≡◌, ◌≢◌, refl, ◌↔◌, ◌⊎◌, inl, inr, Bool, true, false, not, ◌||◌, ◌&&◌, Option,
  none, some, List, [], ◌∷◌, In, any, ltb, ◌==◌, if◌then◌else◌, Bool-cases, arith,
}
use mathlib.Core.Path.{subst}
use landscape_rill.Base.Filters.{any-true, any_of_In}
use landscape_rill.Dn42.Message.{Capability, mp_bgp, route_refresh, four_octet_as, OpenMsg}
use landscape_rill.Dn42.Fsm.{
  LocalConfig, Required, note_capability, note_capabilities, is_other_as, open_error, negotiate,
  sub_unacceptable_hold_time, sub_bad_peer_as, sub_bad_bgp_id, sub_unsupported_capability, BgpFsm,
  keepalive_interval, max,
}

is_mp : Capability → Bool
is_mp (mp_bgp afi safi) = safi == 1 && (afi == 1 || afi == 2)
is_mp _ = false

is_as4 : Capability → Bool
is_as4 (four_octet_as asn) = true
is_as4 _ = false

is_rr : Capability → Bool
is_rr route_refresh = true
is_rr _ = false

-- The loop of `on_open` sets each variable where any capability is of its kind.
note_capabilities-any :
    (cs : List Capability) (r : Required)
    → note_capabilities r cs ≡ record {
      has_mp = r.has_mp || any is_mp cs;
      has_as4 = r.has_as4 || any is_as4 cs;
      has_rr = r.has_rr || any is_rr cs;
    }
unfolding note_capabilities is_mp is_as4 is_rr
note_capabilities-any [] r = ground arith
note_capabilities-any (mp_bgp a b ∷ cs) r =
    ground (arith, note_capabilities-any cs (note_capability r (mp_bgp a b)))
note_capabilities-any (four_octet_as a ∷ cs) r =
    ground (arith, note_capabilities-any cs (note_capability r (four_octet_as a)))
note_capabilities-any (route_refresh ∷ cs) r =
    ground (arith, note_capabilities-any cs (note_capability r route_refresh))

abbrev pub HasMp : List Capability → Type 0
HasMp cs = (afi : ℕ) × ((afi ≡ 1) ⊎ (afi ≡ 2)) × In (mp_bgp afi 1) cs

abbrev pub HasAs4 : List Capability → Type 0
HasAs4 cs = (asn : ℕ) × In (four_octet_as asn) cs

any-HasMp : (cs : List Capability) → (any is_mp cs ≡ true) ↔ HasMp cs
unfolding is_mp
any-HasMp cs = (
  λ e. let (c, i, m) = any-true is_mp cs e in of c i m,
  λ h. let (afi, family, i) = h in any_of_In is_mp cs (mp_bgp afi 1) i (ground arith),
)
  where
    of : (c : Capability) → In c cs → is_mp c ≡ true → HasMp cs
    of (mp_bgp afi safi) i m =
        let one : safi ≡ 1 = ground arith in
        (afi, ground arith, subst (λ s. In (mp_bgp afi s) cs) one i)
    of (four_octet_as asn) i m = cc m
    of route_refresh i m = cc m

any-HasAs4 : (cs : List Capability) → (any is_as4 cs ≡ true) ↔ HasAs4 cs
unfolding is_as4
any-HasAs4 cs = (
  λ e. let (c, i, m) = any-true is_as4 cs e in of c i m,
  λ h. any_of_In is_as4 cs (four_octet_as h.0) h.1 refl,
)
  where
    of : (c : Capability) → In c cs → is_as4 c ≡ true → HasAs4 cs
    of (mp_bgp afi safi) i m = cc m
    of (four_octet_as asn) i m = (asn, i)
    of route_refresh i m = cc m

any-rr : (cs : List Capability) → (any is_rr cs ≡ true) ↔ In route_refresh cs
unfolding is_rr
any-rr cs = (
  λ e. let (c, i, m) = any-true is_rr cs e in of c i m,
  λ i. any_of_In is_rr cs route_refresh i refl,
)
  where
    of : (c : Capability) → In c cs → is_rr c ≡ true → In route_refresh cs
    of (mp_bgp afi safi) i m = cc m
    of (four_octet_as asn) i m = cc m
    of route_refresh i m = i

-- The OPEN that a session can be built on.
pub record IsAcceptable (local : LocalConfig) (o : OpenMsg) : Type 0 where
  pub hold : (o.hold_time ≡ 0) ⊎ (3 ≤ o.hold_time)
  pub peer : (asn : ℕ) → local.peer_as4 ≡ some asn → o.as4 ≡ asn
  pub identified : o.bgp_id ≢ 0
  pub multiprotocol : HasMp o.capabilities
  pub four_octet : HasAs4 o.capabilities
  pub refreshes : In route_refresh o.capabilities

is_other_as_iff :
    (p : Option ℕ) (as4 : ℕ) → (is_other_as p as4 ≡ false) ↔ ((asn : ℕ) → p ≡ some asn → as4 ≡ asn)
is_other_as_iff none as4 = (λ e asn h. cc h, λ h. refl)
is_other_as_iff (some x) as4 =
    (λ e asn h. let same : x ≡ asn = cc h in ground arith, λ h. let same = h x refl in ground arith)

-- The four checks in a row find nothing exactly if each finds nothing.
checks_iff :
    (a b c d : Bool) (v w x y : ℕ)
    → ((if a
          then some v
          else if b
          then some w
          else if c
          then some x
          else if d
          then some y
          else none)
        ≡ none)
      ↔ ((a ≡ false) × (b ≡ false) × (c ≡ false) × (d ≡ false))
checks_iff a b c d v w x y = ground arith

pub open_error_iff :
    (local : LocalConfig) (o : OpenMsg) → (open_error local o ≡ none) ↔ IsAcceptable local o
unfolding open_error
open_error_iff local o =
    let none_found : Required = record { has_mp = false; has_as4 = false; has_rr = false } in
    let found = note_capabilities-any o.capabilities none_found in
    let checks =
      checks_iff (ltb 0 o.hold_time && ltb o.hold_time 3) (is_other_as local.peer_as4 o.as4)
        (o.bgp_id == 0)
        (not (any is_mp o.capabilities)
          || not (any is_as4 o.capabilities)
          || not (any is_rr o.capabilities))
        sub_unacceptable_hold_time sub_bad_peer_as sub_bad_bgp_id sub_unsupported_capability in
    let mp = any-HasMp o.capabilities in
    let as4 = any-HasAs4 o.capabilities in
    let rr = any-rr o.capabilities in
    let other = is_other_as_iff local.peer_as4 o.as4 in
    (
      λ e.
          let (a, b, c, d) = checks.0 (rw found at e) in
          record {
            hold = ground arith;
            peer = other.0 b;
            identified = ground arith;
            multiprotocol = mp.0 (ground arith);
            four_octet = as4.0 (ground arith);
            refreshes = rr.0 (ground arith);
          },
      λ a.
          let m = mp.1 a.multiprotocol in
          let f = as4.1 a.four_octet in
          let r = rr.1 a.refreshes in
          rw found (
            checks.1 (
              elim a.hold [ inl z ↦ ground arith | inr l ↦ ground arith ],
              other.1 a.peer,
              ground arith,
              rw (m, f, r),
            )),
    )

-- The agreed hold time of a session between two sides that keep the rule of RFC 4271 (none, or at
-- least 3 seconds) is at most what each side proposed, and the interval of the KEEPALIVEs is at
-- least a second and at most a third of it; with no hold time there is no interval.
pub keepalive_interval-fits :
    (s : BgpFsm) (theirs : ℕ)
    → (s.local.hold_time ≡ 0) ⊎ (3 ≤ s.local.hold_time)
    → (theirs ≡ 0) ⊎ (3 ≤ theirs)
    → s.negotiated_hold ≡ negotiate s.local.hold_time theirs
    → ((s.negotiated_hold ≡ 0) × (keepalive_interval s ≡ none))
      ⊎ ((every : ℕ) × (keepalive_interval s ≡ some every)
          × (1 ≤ every)
          × (3 * every ≤ s.negotiated_hold)
          × (s.negotiated_hold ≤ s.local.hold_time)
          × (s.negotiated_hold ≤ theirs))
unfolding keepalive_interval negotiate
keepalive_interval-fits s theirs ours_ok theirs_ok n = elim (Bool-cases (s.negotiated_hold == 0)) [
  | inl z ↦ inl (ground arith, rw z)
  | inr z ↦
      inr (
        max (s.negotiated_hold / 3) 1,
        rw z,
        ground arith,
        ground arith,
        ground arith,
        ground arith,
      )
]
