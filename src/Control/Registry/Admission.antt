-- ===== src/Control/Registry/Admission.antt =====
-- Which registrations are admitted.
use landscape_rill.Base.{
  ℕ, ◌≡◌, ◌≢◌, ◌↔◌, refl, sym, ap, ◌∙◌, ◌==◌, true, ◌&&◌, Option, none, some, List, [], ◌∷◌, All,
  any, Result, ok, err, ◌>>◌, Bool-cases, Option-cases, inl, inr,
}
use landscape_rill.Base.Assoc.{lookup}
use landscape_rill.Base.Text.{Text}
use landscape_rill.Route.Prefix.{Prefix, IpAddr, is_covered_by}
use landscape_rill.Route.Prefix.Parse.{parse}
use landscape_rill.Control.Registry.{
  id_eq, text_Eq, AuthKeySpec, NodeEntry, RegisterError, pubkey_mismatch, new_node, existing,
  Refusal, refused, Registry, Request, known, consume, check_covered, check_announce_routes,
  routes_eq, inserted, checked, with_owner, with_spec, register,
}

module _ (sign : List ℕ → List ℕ) (parse_u8 : Text → Option ℕ)
    (parse_ip : Text → Option IpAddr) where
  -- A route that can be read and that a prefix of the whitelist covers.
  abbrev pub IsAnnounceable : List Prefix → Text → Type 0
  IsAnnounceable whitelist route =
      (p : Prefix) × (parse parse_u8 parse_ip route ≡ some p)
      × (any (λ allowed. is_covered_by p allowed) whitelist ≡ true)

  announceable_of :
      (whitelist : List Prefix) (o : Option Prefix)
      → check_covered whitelist o ≡ ok tt
      → (p : Prefix) × (o ≡ some p) × (any (λ allowed. is_covered_by p allowed) whitelist ≡ true)
  announceable_of whitelist none h = cc
  announceable_of whitelist (some p) h =
      elim (Bool-cases (any (λ allowed. is_covered_by p allowed) whitelist)) [
        | inl covered ↦ (p, refl, covered)
        | inr open' ↦
            let lost : check_covered whitelist (some p)
                ≡ err (refused RegisterError.route_not_allowed) =
              rw open' in
            let no : ⊥ = cc in elim no [ ]
      ]

  both_done : (x y : Result Refusal (Unit {0})) → (x >> y) ≡ ok tt → (x ≡ ok tt) × (y ≡ ok tt)
  both_done (ok _) y h = (refl, h)
  both_done (err e) y h = cc

  pub check_announce_routes_iff :
      (whitelist : List Prefix) (routes : List Text)
      → (check_announce_routes sign parse_u8 parse_ip whitelist routes ≡ ok tt)
        ↔ All (IsAnnounceable whitelist) routes
  unfolding check_announce_routes
  check_announce_routes_iff whitelist [] = (λ h. tt, λ h. refl)
  check_announce_routes_iff whitelist (route ∷ routes) =
      let (there, back) = check_announce_routes_iff whitelist routes in
      (
        λ h.
            let (one, rest) =
              both_done (check_covered whitelist (parse parse_u8 parse_ip route))
                (check_announce_routes sign parse_u8 parse_ip whitelist routes) h in
            (announceable_of whitelist (parse parse_u8 parse_ip route) one, there rest),
        λ all. let (p, read, covered) = all.0 in rw (read, covered) (back all.1),
      )

  checked-cases :
      (spec : AuthKeySpec) (req : Request) (reg : Registry) (r : Result Refusal (Unit {0})) (id : ℕ)
      → (checked sign parse_u8 parse_ip spec req reg r).1 ≡ ok (new_node id)
      → (r ≡ ok tt)
        × (id ≡ req.node_id)
        × ((checked sign parse_u8 parse_ip spec req reg r).0
            ≡ consume spec.policy req.auth_key (inserted sign parse_u8 parse_ip req reg))
  checked-cases spec req reg (ok _) id h = (refl, cc, refl)
  checked-cases spec req reg (err e) id h = cc

  known_not_new :
      (req : Request) (owner id : ℕ) (o : Option NodeEntry) → known req owner o ≢ ok (new_node id)
  known_not_new req owner id none h = cc
  known_not_new req owner id (some e) h =
      elim (Bool-cases (e.capabilities == req.capabilities && routes_eq e.routes req.routes)) [
        | inl same ↦ let r : known req owner (some e) ≡ ok (existing owner) = rw same in cc
        | inr other ↦
            let r : known req owner (some e) ≡ err (refused pubkey_mismatch) = rw other in cc
      ]

  -- The auth key is there, the public key is new, and every route may be announced.
  pub record IsAdmissible (req : Request) (reg : Registry) : Type 0 where
    pub spec : AuthKeySpec
    pub keyed : lookup req.auth_key reg.auth_keys ≡ some spec
    pub unknown : lookup req.static_pubkey reg.pubkeys ≡ none
    pub announced : All (IsAnnounceable reg.announce_whitelist) req.routes

  -- The registry behind an admission.
  abbrev pub admitted : AuthKeySpec → Request → Registry → Registry
  admitted spec req reg = consume spec.policy req.auth_key (inserted sign parse_u8 parse_ip req reg)

  pub register-new :
      (req : Request) (reg : Registry)
      → (a : IsAdmissible req reg)
      → register sign parse_u8 parse_ip req reg
        ≡ (admitted a.spec req reg, ok (new_node req.node_id))
  unfolding register
  register-new req reg a =
      let routes = (check_announce_routes_iff reg.announce_whitelist req.routes).1 a.announced in
      ap (with_spec sign parse_u8 parse_ip req reg) a.keyed
      ∙ ap (with_owner sign parse_u8 parse_ip a.spec req reg) a.unknown
      ∙ ap (checked sign parse_u8 parse_ip a.spec req reg) routes

  pub new-IsAdmissible :
      (req : Request) (reg : Registry) (id : ℕ)
      → (register sign parse_u8 parse_ip req reg).1 ≡ ok (new_node id)
      → IsAdmissible req reg × (id ≡ req.node_id)
  unfolding register
  new-IsAdmissible req reg id h = elim (Option-cases (lookup req.auth_key reg.auth_keys)) [
    | inl missing ↦
        let r = ap (λ o. (with_spec sign parse_u8 parse_ip req reg o).1) missing in
        let no : ⊥ = cc in elim no [ ]
    | inr (spec, keyed) ↦
        let r = ap (λ o. (with_spec sign parse_u8 parse_ip req reg o).1) keyed in
        elim (Option-cases (lookup req.static_pubkey reg.pubkeys)) [
          | inl unknown ↦
              let r' = ap (λ o. (with_owner sign parse_u8 parse_ip spec req reg o).1) unknown in
              let (routes, named, after) =
                checked-cases spec req reg
                  (check_announce_routes sign parse_u8 parse_ip reg.announce_whitelist req.routes)
                  id (sym r' ∙ sym r ∙ h) in
              (
                record {
                  spec = spec;
                  keyed = keyed;
                  unknown = unknown;
                  announced =
                      (check_announce_routes_iff reg.announce_whitelist req.routes).0 routes;
                },
                named,
              )
          | inr (owner, owned) ↦
              let r' = ap (λ o. (with_owner sign parse_u8 parse_ip spec req reg o).1) owned in
              let no = known_not_new req owner id (lookup owner reg.entries) (sym r' ∙ sym r ∙ h) in
              elim no [ ]
        ]
  ]

  -- A registration makes a new node exactly where its auth key is there, its public key is new and
  -- each of its routes can be read and is covered by the whitelist, as `is_covered_by` of a release
  -- build answers; the node gets the id that the caller allotted.
  pub register_new_iff :
      (req : Request) (reg : Registry) (id : ℕ)
      → ((register sign parse_u8 parse_ip req reg).1 ≡ ok (new_node id))
        ↔ (IsAdmissible req reg × (id ≡ req.node_id))
  register_new_iff req reg id = (
    new-IsAdmissible req reg id,
    λ a. ap (λ r. r.1) (register-new req reg a.0) ∙ ap (λ n. ok (new_node n)) (sym a.1),
  )
