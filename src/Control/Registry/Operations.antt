-- ===== src/Control/Registry/Operations.antt =====
-- Runs of operations on a registry.
use mathlib.Core.Path.{subst}
use landscape_rill.Base.{
  ℕ, ◌≡◌, ◌≢◌, sym, ap, ◌∙◌, ◌==◌, ◌&&◌, Option, none, some, List, [], ◌∷◌, ◌>>◌, any, Result, ok,
  err, Bool-cases, Option-cases, Result-cases, inl, inr,
}
use landscape_rill.Base.Assoc.{lookup}
use landscape_rill.Base.Text.{Text}
use landscape_rill.Route.Prefix.{Prefix, IpAddr, is_covered_by}
use landscape_rill.Route.Prefix.Parse.{parse}
use landscape_rill.Control.Registry.{
  id_eq, text_Eq, AuthKeySpec, NodeEntry, route_not_allowed, invalid_auth_key, pubkey_mismatch,
  existing, Refusal, refused, panicked, Registry, new_registry, add_auth_key_spec, remove_auth_key,
  set_announce_whitelist, Request, known, check_covered, check_announce_routes, routes_eq,
  new_entry, inserted, checked, with_owner, with_spec, register, revoke,
}
use landscape_rill.Control.Registry.Valid.{
  IsValid, new_registry-IsValid, add_auth_key_spec-IsValid, remove_auth_key-IsValid, bound-IsValid,
  consume-IsValid, revoke-IsValid,
}
use landscape_rill.Control.Registry.Admission.{
  check_announce_routes_iff, IsAdmissible, register-new,
}

-- An operation that changes a registry.
pub data Operation : Type 0 where
  add_key : Text → AuthKeySpec → Operation
  remove_key : Text → Operation
  set_whitelist : List Prefix → Operation
  admit : Request → Operation
  expel : ℕ → Operation

module _ (sign : List ℕ → List ℕ) (parse_u8 : Text → Option ℕ)
    (parse_ip : Text → Option IpAddr) where
  unfoldable pub perform : Operation → Registry → Registry
  perform (add_key key spec) reg = add_auth_key_spec key spec reg
  perform (remove_key key) reg = remove_auth_key key reg
  perform (set_whitelist ps) reg = set_announce_whitelist ps reg
  perform (admit req) reg = (register sign parse_u8 parse_ip req reg).0
  perform (expel id) reg = revoke id reg

  -- The caller allots an id that no node of the registry has.
  abbrev pub IsAllotted : Operation → Registry → Type 0
  IsAllotted (admit req) reg = lookup req.node_id reg.entries ≡ none
  IsAllotted (add_key key spec) reg = Unit
  IsAllotted (remove_key key) reg = Unit
  IsAllotted (set_whitelist ps) reg = Unit
  IsAllotted (expel id) reg = Unit

  abbrev pub run : List Operation → Registry → Registry
  run [] reg = reg
  run (op ∷ ops) reg = run ops (perform op reg)

  abbrev pub AreAllotted : List Operation → Registry → Type 0
  AreAllotted [] reg = Unit
  AreAllotted (op ∷ ops) reg = IsAllotted op reg × AreAllotted ops (perform op reg)

  -- A registration that makes no new node leaves the registry as it is.
  pub data Outcome (req : Request) (reg : Registry) : Type 0 where
    admits : (a : IsAdmissible sign parse_u8 parse_ip req reg) → Outcome req reg
    finds :
        (owner : ℕ)
        → lookup req.static_pubkey reg.pubkeys ≡ some owner
        → register sign parse_u8 parse_ip req reg
          ≡ (reg, known req owner (lookup owner reg.entries))
        → Outcome req reg
    refuses :
        (e : Refusal)
        → e ≢ panicked
        → register sign parse_u8 parse_ip req reg ≡ (reg, err e)
        → Outcome req reg

  check_covered_refuses :
      (whitelist : List Prefix) (o : Option Prefix) → check_covered whitelist o ≢ err panicked
  check_covered_refuses whitelist none h = cc
  check_covered_refuses whitelist (some p) h =
      elim (Bool-cases (any (λ allowed. is_covered_by p allowed) whitelist)) [
        | inl covered ↦ let r : check_covered whitelist (some p) ≡ ok tt = rw covered in cc
        | inr apart ↦
            let r : check_covered whitelist (some p) ≡ err (refused route_not_allowed) = rw apart in
            cc
      ]

  both_refuse :
      (x y : Result Refusal (Unit {0}))
      → x ≢ err panicked
      → y ≢ err panicked
      → (x >> y) ≢ err panicked
  both_refuse (ok _) y hx hy h = hy h
  both_refuse (err e) y hx hy h = hx (let same : e ≡ panicked = cc in ap err same)

  check_refuses :
      (whitelist : List Prefix) (routes : List Text)
      → check_announce_routes sign parse_u8 parse_ip whitelist routes ≢ err panicked
  unfolding check_announce_routes
  check_refuses whitelist [] h = cc
  check_refuses whitelist (route ∷ routes) h =
      both_refuse (check_covered whitelist (parse parse_u8 parse_ip route))
        (check_announce_routes sign parse_u8 parse_ip whitelist routes)
        (check_covered_refuses whitelist (parse parse_u8 parse_ip route))
        (check_refuses whitelist routes) h

  pub register-Outcome : (req : Request) (reg : Registry) → Outcome req reg
  unfolding register
  register-Outcome req reg = elim (Option-cases (lookup req.auth_key reg.auth_keys)) [
    | inl missing ↦
        refuses (refused invalid_auth_key) (λ e. cc)
          (ap (with_spec sign parse_u8 parse_ip req reg) missing)
    | inr (spec, keyed) ↦
        let start = ap (with_spec sign parse_u8 parse_ip req reg) keyed in
        elim (Option-cases (lookup req.static_pubkey reg.pubkeys)) [
          | inl unknown ↦
              let next = ap (with_owner sign parse_u8 parse_ip spec req reg) unknown in
              elim (Result-cases
                (check_announce_routes sign parse_u8 parse_ip reg.announce_whitelist req.routes)) [
                  | inl (u, fine) ↦ admits (record {
                    spec = spec;
                    keyed = keyed;
                    unknown = unknown;
                    announced =
                        (check_announce_routes_iff sign parse_u8 parse_ip reg.announce_whitelist
                            req.routes).0
                          fine;
                  })
                  | inr (e, bad) ↦
                      refuses e
                        (λ same.
                          check_refuses reg.announce_whitelist req.routes (bad ∙ ap err same))
                        (start ∙ next ∙ ap (checked sign parse_u8 parse_ip spec req reg) bad)
                ]
          | inr (owner, owned) ↦
              finds owner owned (start ∙ ap (with_owner sign parse_u8 parse_ip spec req reg) owned)
        ]
  ]

  known_listed :
      (req : Request) (owner : ℕ) (e : NodeEntry) → known req owner (some e) ≢ err panicked
  known_listed req owner e h =
      elim (Bool-cases (e.capabilities == req.capabilities && routes_eq e.routes req.routes)) [
        | inl same ↦ let r : known req owner (some e) ≡ ok (existing owner) = rw same in cc
        | inr other ↦
            let r : known req owner (some e) ≡ err (refused pubkey_mismatch) = rw other in cc
      ]

  -- In a valid registry the `unwrap` of `register` finds its entry.
  register-panics :
      (req : Request) (reg : Registry)
      → IsValid reg
      → (register sign parse_u8 parse_ip req reg).1 ≢ err panicked
  register-panics req reg v h = elim (register-Outcome req reg) [
    | admits a ↦ let r = ap (λ x. x.1) (register-new sign parse_u8 parse_ip req reg a) in cc
    | finds owner owned e ↦
        let (entry, listed, key) = v.owned req.static_pubkey owner owned in
        known_listed req owner entry (sym (ap (λ x. x.1) e ∙ ap (known req owner) listed) ∙ h)
    | refuses x calm e ↦ let r = ap (λ x. x.1) e in let same : x ≡ panicked = cc in calm same
  ]

  register-IsValid :
      (req : Request) (reg : Registry)
      → lookup req.node_id reg.entries ≡ none
      → IsValid reg
      → IsValid (register sign parse_u8 parse_ip req reg).0
  register-IsValid req reg fresh v = elim (register-Outcome req reg) [
    | admits a ↦
        subst IsValid (sym (ap (λ x. x.0) (register-new sign parse_u8 parse_ip req reg a))) (
          consume-IsValid a.spec.policy req.auth_key (inserted sign parse_u8 parse_ip req reg)
            (bound-IsValid (new_entry sign parse_u8 parse_ip req reg) reg fresh a.unknown v))
    | finds owner owned e ↦ subst IsValid (sym (ap (λ x. x.0) e)) v
    | refuses x calm e ↦ subst IsValid (sym (ap (λ x. x.0) e)) v
  ]

  pub perform-IsValid :
      (op : Operation) (reg : Registry) → IsAllotted op reg → IsValid reg → IsValid (perform op reg)
  unfolding perform set_announce_whitelist
  perform-IsValid (add_key key spec) reg h v = add_auth_key_spec-IsValid key spec reg v
  perform-IsValid (remove_key key) reg h v = remove_auth_key-IsValid key reg v
  perform-IsValid (set_whitelist ps) reg h v = record {
    owned = v.owned;
    listed = v.listed;
    spent = v.spent;
  }
  perform-IsValid (admit req) reg h v = register-IsValid req reg h v
  perform-IsValid (expel id) reg h v = revoke-IsValid id reg v

  pub run-IsValid :
      (ops : List Operation) (reg : Registry)
      → AreAllotted ops reg
      → IsValid reg
      → IsValid (run ops reg)
  run-IsValid [] reg h v = v
  run-IsValid (op ∷ ops) reg h v =
      run-IsValid ops (perform op reg) h.1 (perform-IsValid op reg h.0 v)

  -- Whatever is done to a new registry, with ids that no listed node has, public keys and nodes stay
  -- in one-to-one correspondence, a consumed one-time key is no auth key, and the `unwrap` of a
  -- registration finds its entry, in a release build, where no shift panics.
  pub run_sound :
      (network_id : ℕ) (ops : List Operation)
      → AreAllotted ops (new_registry network_id)
      → IsValid (run ops (new_registry network_id))
        × ((req : Request)
            → (register sign parse_u8 parse_ip req (run ops (new_registry network_id))).1
              ≢ err panicked)
  run_sound network_id ops h =
      let v = run-IsValid ops (new_registry network_id) h (new_registry-IsValid network_id) in
      (v, λ req. register-panics req (run ops (new_registry network_id)) v)
