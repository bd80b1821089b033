-- ===== src/Control/Registry/Spent.antt =====
-- A one-time key admits one node.
use mathlib.Core.Path.{subst}
use landscape_rill.Base.{
  ℕ, ◌≡◌, refl, sym, ap, ◌∙◌, ◌==◌, ==_iff, true, Option, none, some, List, [], ◌∷◌, ◌++◌, In, ok,
  err, Bool-cases, inl, inr,
}
use landscape_rill.Base.Assoc.{lookup}
use landscape_rill.Base.Bindings.{lookup-insert_same}
use landscape_rill.Base.Text.{Text, text_eq_refl}
use landscape_rill.Route.Prefix.{IpAddr}
use landscape_rill.Control.Registry.{
  id_eq, text_Eq, AuthKeyPolicy, one_time, reusable, AuthKeySpec, NodeEntry, invalid_auth_key,
  new_node, existing, refused, Registry, is_consumed, add_auth_key_spec, remove_auth_key,
  set_announce_whitelist, Request, known, consume, routes_eq, new_entry, inserted, with_owner,
  with_spec, register, dropped, revoke,
}
use landscape_rill.Control.Registry.Valid.{IsValid}
use landscape_rill.Control.Registry.Admission.{admitted, register-new, new-IsAdmissible}
use landscape_rill.Control.Registry.Operations.{
  Operation, add_key, remove_key, set_whitelist, admit, expel, perform, run, AreAllotted, admits,
  finds, refuses, register-Outcome, run-IsValid,
}

In-left : {A : Type 0} (x : A) (xs ys : List A) → In x xs → In x (xs ++ ys)
In-left x [] ys i = elim i [ ]
In-left x (y ∷ xs) ys (inl e) = inl e
In-left x (y ∷ xs) ys (inr i) = inr (In-left x xs ys i)

In-last : {A : Type 0} (x : A) (xs : List A) → In x (xs ++ (x ∷ []))
In-last x [] = inl refl
In-last x (y ∷ xs) = inr (In-last x xs)

consume-stays :
    (k key : Text) (policy : AuthKeyPolicy) (reg : Registry)
    → In k reg.consumed_one_time
    → In k (consume policy key reg).consumed_one_time
consume-stays k key reusable reg i = i
consume-stays k key one_time reg i = In-left k reg.consumed_one_time (key ∷ []) i

dropped_keeps :
    (node_id : ℕ) (reg : Registry) (o : Option NodeEntry)
    → (dropped node_id reg o).consumed_one_time ≡ reg.consumed_one_time
dropped_keeps node_id reg none = refl
dropped_keeps node_id reg (some e) = refl

module _ (sign : List ℕ → List ℕ) (parse_u8 : Text → Option ℕ)
    (parse_ip : Text → Option IpAddr) where
  perform-stays :
      (k : Text) (op : Operation) (reg : Registry)
      → In k reg.consumed_one_time
      → In k (perform sign parse_u8 parse_ip op reg).consumed_one_time
  unfolding perform add_auth_key_spec remove_auth_key set_announce_whitelist revoke
  perform-stays k (add_key key spec) reg i = elim (Bool-cases (is_consumed key reg)) [
    | inl used ↦ rw used i
    | inr free ↦ rw free i
  ]
  perform-stays k (remove_key key) reg i = i
  perform-stays k (set_whitelist ps) reg i = i
  perform-stays k (admit req) reg i = elim (register-Outcome sign parse_u8 parse_ip req reg) [
    | admits a ↦
        subst (λ r. In k r.0.consumed_one_time)
          (sym (register-new sign parse_u8 parse_ip req reg a))
          (consume-stays k req.auth_key a.spec.policy (inserted sign parse_u8 parse_ip req reg) i)
    | finds owner owned e ↦ subst (λ r. In k r.0.consumed_one_time) (sym e) i
    | refuses x calm e ↦ subst (λ r. In k r.0.consumed_one_time) (sym e) i
  ]
  perform-stays k (expel id) reg i =
      subst (λ l. In k l) (sym (dropped_keeps id reg (lookup id reg.entries))) i

  run-stays :
      (k : Text) (ops : List Operation) (reg : Registry)
      → In k reg.consumed_one_time
      → In k (run sign parse_u8 parse_ip ops reg).consumed_one_time
  run-stays k [] reg i = i
  run-stays k (op ∷ ops) reg i =
      run-stays k ops (perform sign parse_u8 parse_ip op reg) (perform-stays k op reg i)

  consumed_refused :
      (req : Request) (reg : Registry)
      → IsValid reg
      → In req.auth_key reg.consumed_one_time
      → register sign parse_u8 parse_ip req reg ≡ (reg, err (refused invalid_auth_key))
  unfolding register
  consumed_refused req reg v i =
      ap (with_spec sign parse_u8 parse_ip req reg) (v.spent req.auth_key i)

  admitted-spent :
      (spec : AuthKeySpec) (req : Request) (reg : Registry)
      → spec.policy ≡ one_time
      → In req.auth_key (admitted sign parse_u8 parse_ip spec req reg).consumed_one_time
  admitted-spent spec req reg h =
      subst
        (λ p.
          In req.auth_key
            (consume p req.auth_key (inserted sign parse_u8 parse_ip req reg)).consumed_one_time)
        (sym h) (In-last req.auth_key reg.consumed_one_time)

  -- In a valid registry, behind an admission with a one-time key every registration with this key
  -- is refused as invalid and changes nothing, whatever operations come between, with ids that no
  -- listed node has, and the key being added again included.
  pub register-spent :
      (req later : Request) (spec : AuthKeySpec) (reg : Registry) (id : ℕ) (ops : List Operation)
      → IsValid reg
      → lookup req.auth_key reg.auth_keys ≡ some spec
      → spec.policy ≡ one_time
      → (register sign parse_u8 parse_ip req reg).1 ≡ ok (new_node id)
      → AreAllotted sign parse_u8 parse_ip (admit req ∷ ops) reg
      → later.auth_key ≡ req.auth_key
      → (let now = run sign parse_u8 parse_ip (admit req ∷ ops) reg in
          register sign parse_u8 parse_ip later now ≡ (now, err (refused invalid_auth_key)))
  unfolding perform
  register-spent req later spec reg id ops v keyed once h allotted same =
      let (a, named) = new-IsAdmissible sign parse_u8 parse_ip req reg id h in
      let key : Path (Option AuthKeySpec) (some a.spec) (some spec) = sym a.keyed ∙ keyed in
      let policy : a.spec.policy ≡ one_time =
        (let e : a.spec ≡ spec = cc in ap (λ (s : AuthKeySpec). s.policy) e ∙ once) in
      let first : In req.auth_key (register sign parse_u8 parse_ip req reg).0.consumed_one_time =
        subst (λ r. In req.auth_key r.0.consumed_one_time)
          (sym (register-new sign parse_u8 parse_ip req reg a))
          (admitted-spent a.spec req reg policy) in
      let all = run-IsValid sign parse_u8 parse_ip (admit req ∷ ops) reg allotted v in
      consumed_refused later (run sign parse_u8 parse_ip (admit req ∷ ops) reg) all (
        subst (λ k. In k (run sign parse_u8 parse_ip (admit req ∷ ops) reg).consumed_one_time)
          (sym same) (run-stays req.auth_key ops (register sign parse_u8 parse_ip req reg).0 first))

  routes_eq_refl : (l : List Text) → routes_eq l l ≡ true
  routes_eq_refl [] = refl
  routes_eq_refl (x ∷ xs) = rw (text_eq_refl x) (routes_eq_refl xs)

  found_again :
      (req : Request) (e : NodeEntry) (owner : ℕ)
      → e.capabilities ≡ req.capabilities
      → e.routes ≡ req.routes
      → known req owner (some e) ≡ ok (existing owner)
  found_again req e owner c r =
      let one : (e.capabilities == req.capabilities) ≡ true =
        (==_iff e.capabilities req.capabilities).1 c in
      let all : routes_eq e.routes req.routes ≡ true =
        subst (λ l. routes_eq e.routes l ≡ true) r (routes_eq_refl e.routes) in
      rw (one, all)

  -- Behind an admission with a reusable key the same registration, with any proposed id and log
  -- position, finds the node under the id that it was given first, and changes nothing.
  pub register-again :
      (req : Request) (spec : AuthKeySpec) (reg : Registry) (id proposed : ℕ) (position : ℕ × ℕ)
      → lookup req.auth_key reg.auth_keys ≡ some spec
      → spec.policy ≡ reusable
      → (register sign parse_u8 parse_ip req reg).1 ≡ ok (new_node id)
      → (let now = (register sign parse_u8 parse_ip req reg).0 in
          register sign parse_u8 parse_ip
            (record req { node_id = proposed; issuance = position })
            now
          ≡ (now, ok (existing id)))
  unfolding register
  register-again req spec reg id proposed position keyed often h =
      let (a, named) = new-IsAdmissible sign parse_u8 parse_ip req reg id h in
      let later = record req { node_id = proposed; issuance = position } in
      let now = inserted sign parse_u8 parse_ip req reg in
      let e = new_entry sign parse_u8 parse_ip req reg in
      let key : Path (Option AuthKeySpec) (some a.spec) (some spec) = sym a.keyed ∙ keyed in
      let policy : a.spec.policy ≡ reusable =
        (let e : a.spec ≡ spec = cc in ap (λ (s : AuthKeySpec). s.policy) e ∙ often) in
      let here : (register sign parse_u8 parse_ip req reg).0 ≡ now =
        ap (λ x. x.0) (register-new sign parse_u8 parse_ip req reg a)
        ∙ ap (λ p. consume p req.auth_key now) policy in
      let again : register sign parse_u8 parse_ip later now ≡ (now, ok (existing id)) =
        ap (with_spec sign parse_u8 parse_ip later now) keyed
        ∙ ap (with_owner sign parse_u8 parse_ip spec later now)
            (lookup-insert_same req.static_pubkey req.node_id reg.pubkeys)
        ∙ ap (λ o. (now, known later req.node_id o)) (lookup-insert_same req.node_id e reg.entries)
        ∙ ap (λ r. (now, r)) (found_again later e req.node_id refl refl)
        ∙ ap (λ n. (now, ok (existing n))) (sym named) in
      subst (λ r. register sign parse_u8 parse_ip later r ≡ (r, ok (existing id))) (sym here) again
