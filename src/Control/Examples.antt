-- ===== src/Control/Examples.antt =====
-- A registry of two nodes, and a policy.
use landscape_rill.Base.{
  ℕ, ◌+◌, ◌-◌, ◌*◌, ◌^◌, ◌≡◌, ◌≢◌, ◌↔◌, ◌⊎◌, In, refl, true, Option, none, some, List, [], ◌∷◌,
  ◌++◌, replicate, if◌then◌else◌, ok, err, arith,
}
use landscape_rill.Base.Assoc.{lookup}
use landscape_rill.Base.Text.{Text, text_eq, text_eq_refl}
use landscape_rill.Route.Prefix.{
  Prefix, IpAddr, ipv4, new, contains, significant, is_covered_by, matches, from_ip,
}
use landscape_rill.Control.Registry.{
  id_eq, text_Eq, one_time, reusable, simple, NodeEntry, invalid_auth_key, new_node, existing,
  refused, panicked, Registry, new_registry, add_auth_key_spec, set_announce_whitelist, Request,
  check_announce_routes, register, revoke, restore,
}
use landscape_rill.Control.Registry.Valid.{IsValid, new_registry-IsValid}
use landscape_rill.Control.Registry.Admission.{IsAdmissible, register_new_iff}
use landscape_rill.Control.Registry.Operations.{
  Operation, add_key, set_whitelist, admit, expel, perform, run, AreAllotted, run-IsValid,
  run_sound,
}
use landscape_rill.Control.Registry.Spent.{register-spent, register-again}
use landscape_rill.Control.Registry.Binding.{IsBinding, binding_message_unique}
use landscape_rill.Control.Registry.Restore.{AreDistinct, restore-IsValid}
use landscape_rill.Control.Revoke.{new_list}
use landscape_rill.Control.Session.{
  registered, SessionEvent, register_ok, link_lost, challenge_ok, challenge_failed, revoked,
  ClientSession,
}
use landscape_rill.Control.Session.Holding.{holder, behind, behind-holder}
use landscape_rill.Control.Challenge.{Primitives, IsAgreement}
use landscape_rill.Control.Acl.{
  AclPolicy, any_node, allow, packet_dst, allows_loop, allows, allows_packet,
}
use landscape_rill.Control.Acl.Verdict.{IsPacketTo, Permits, allows_packet_iff}

abbrev sign_plain : List ℕ → List ℕ
sign_plain msg = 0 ∷ msg

-- One digit.
abbrev read_digit : Text → Option ℕ
read_digit [] = none
read_digit (c ∷ []) = some (c - 48)
read_digit (c ∷ d ∷ cs) = none

-- "10.0" alone.
abbrev read_ten : Text → Option IpAddr
read_ten t = if text_eq t (49 ∷ 48 ∷ 46 ∷ 48 ∷ []) then some (ipv4 (10 * 2 ^ 24)) else none

-- "10.0/8"
abbrev ten_route : Text
ten_route = 49 ∷ 48 ∷ 46 ∷ 48 ∷ 47 ∷ 56 ∷ []

abbrev ten_block : Prefix
ten_block = record { bits = 10 * 2 ^ 120; len = 8; v4 = true }

abbrev once : Text
once = 97 ∷ []

abbrev often : Text
often = 98 ∷ []

abbrev pubkey : ℕ → List ℕ
pubkey seed = replicate 32 seed

abbrev request : Text → ℕ → Request
request key n = record {
  auth_key = key;
  static_pubkey = pubkey n;
  capabilities = 1;
  routes = ten_route ∷ [];
  node_id = n;
  issuance = (n, 1);
}

abbrev setting : List Operation
setting =
    add_key once (simple one_time)
    ∷ add_key often (simple reusable)
    ∷ set_whitelist (ten_block ∷ [])
    ∷ []

abbrev start : Registry
start = run sign_plain read_digit read_ten setting (new_registry 7)

abbrev later_ops : List Operation
later_ops = add_key once (simple one_time) ∷ admit (request often 2) ∷ expel 1 ∷ []

start-IsValid : IsValid start
start-IsValid =
    run-IsValid sign_plain read_digit read_ten setting (new_registry 7) (tt, (tt, (tt, tt)))
      (new_registry-IsValid 7)

all_allotted :
    AreAllotted sign_plain read_digit read_ten
      (setting ++ (admit (request once 1) ∷ later_ops))
      (new_registry 7)
unfolding perform new_registry add_auth_key_spec set_announce_whitelist register
    check_announce_routes new is_covered_by contains significant revoke
all_allotted = (tt, (tt, (tt, (refl, (tt, (refl, (tt, tt)))))))

start_allotted :
    AreAllotted sign_plain read_digit read_ten (admit (request once 1) ∷ later_ops) start
unfolding perform new_registry add_auth_key_spec set_announce_whitelist register
    check_announce_routes new is_covered_by contains significant revoke
start_allotted = (refl, (tt, (refl, (tt, tt))))

once_admitted : (register sign_plain read_digit read_ten (request once 1) start).1 ≡ ok (new_node 1)
unfolding perform new_registry add_auth_key_spec set_announce_whitelist register
    check_announce_routes new is_covered_by contains significant
once_admitted = refl

often_admitted :
    (register sign_plain read_digit read_ten (request often 2) start).1 ≡ ok (new_node 2)
unfolding perform new_registry add_auth_key_spec set_announce_whitelist register
    check_announce_routes new is_covered_by contains significant
often_admitted = refl

once_keyed : lookup once start.auth_keys ≡ some (simple one_time)
unfolding perform new_registry add_auth_key_spec set_announce_whitelist
once_keyed = refl

often_keyed : lookup often start.auth_keys ≡ some (simple reusable)
unfolding perform new_registry add_auth_key_spec set_announce_whitelist
often_keyed = refl

run_sound_example :
    (let now =
        run sign_plain read_digit read_ten
          (setting ++ (admit (request once 1) ∷ later_ops))
          (new_registry 7) in
      IsValid now
      × ((req : Request) → (register sign_plain read_digit read_ten req now).1 ≢ err panicked))
run_sound_example =
    run_sound sign_plain read_digit read_ten 7 (setting ++ (admit (request once 1) ∷ later_ops))
      all_allotted

register-spent_example :
    (let now = run sign_plain read_digit read_ten (admit (request once 1) ∷ later_ops) start in
      register sign_plain read_digit read_ten (request once 3) now
      ≡ (now, err (refused invalid_auth_key)))
register-spent_example =
    register-spent sign_plain read_digit read_ten (request once 1) (request once 3)
      (simple one_time) start 1 later_ops start-IsValid once_keyed refl once_admitted start_allotted
      refl

register-again_example :
    (let now = (register sign_plain read_digit read_ten (request often 2) start).0 in
      register sign_plain read_digit read_ten
        (record (request often 2) { node_id = 9; issuance = (5, 5) })
        now
      ≡ (now, ok (existing 2)))
register-again_example =
    register-again sign_plain read_digit read_ten (request often 2) (simple reusable) start 2 9
      (5, 5) often_keyed refl often_admitted

register_new_iff_example :
    ((register sign_plain read_digit read_ten (request once 1) start).1 ≡ ok (new_node 1))
    ↔ (IsAdmissible sign_plain read_digit read_ten (request once 1) start × Path ℕ 1 1)
register_new_iff_example = register_new_iff sign_plain read_digit read_ten (request once 1) start 1

some-IsBinding : IsBinding 7 (pubkey 1) (3, 4)
some-IsBinding = record { node = omega arith; key = refl; index = omega arith; term = omega arith }

binding_message_unique_example : (Path ℕ 7 7) × (pubkey 1 ≡ pubkey 1) × (Path ℕ 3 3) × (Path ℕ 4 4)
binding_message_unique_example =
    binding_message_unique 7 7 (pubkey 1) (pubkey 1) (3, 4) (3, 4) some-IsBinding some-IsBinding
      refl

abbrev stored : ℕ → NodeEntry
stored n = record {
  node_id = n;
  network_id = 7;
  static_pubkey = n ∷ [];
  capabilities = 0;
  routes = [];
  identity_binding = [];
  binding_log_id = (0, 0);
}

stored-AreDistinct : AreDistinct (stored 1 ∷ stored 2 ∷ [])
stored-AreDistinct = (((λ e. omega (arith, e), λ e. cc), tt), (tt, tt))

restore-IsValid_example : IsValid (restore (stored 1 ∷ stored 2 ∷ []) (once ∷ []) (new_registry 7))
unfolding new_registry
restore-IsValid_example =
    restore-IsValid (stored 1 ∷ stored 2 ∷ []) (once ∷ []) (new_registry 7) (new_registry-IsValid 7)
      stored-AreDistinct (λ k i. refl)

abbrev open_policy : AclPolicy
open_policy = record {
  enabled = true;
  rules = record { subjects = any_node ∷ []; prefix = ten_block; action = allow } ∷ [];
  groups = [];
}

abbrev ten_packet : List ℕ
ten_packet = 69 ∷ (replicate 15 0 ++ (10 ∷ 0 ∷ 0 ∷ 1 ∷ []))

allows_packet_iff_example :
    (allows_packet open_policy 5 ten_packet ≡ true)
    ↔ ((dst : IpAddr) × IsPacketTo ten_packet dst × Permits open_policy 5 dst open_policy.rules)
allows_packet_iff_example = allows_packet_iff open_policy 5 ten_packet refl

ten_allowed : allows_packet open_policy 5 ten_packet ≡ true
unfolding allows_packet packet_dst allows allows_loop matches contains significant from_ip new
ten_allowed = refl

-- A public key is its secret, and the secrets of two sides add up byte by byte.
abbrev sums : List ℕ → List ℕ → List ℕ
sums [] ys = ys
sums (x ∷ xs) [] = x ∷ xs
sums (x ∷ xs) (y ∷ ys) = (x + y) ∷ sums xs ys

sums_comm : (xs ys : List ℕ) → sums xs ys ≡ sums ys xs
sums_comm [] [] = refl
sums_comm [] (y ∷ ys) = refl
sums_comm (x ∷ xs) [] = refl
sums_comm (x ∷ xs) (y ∷ ys) = ground (arith, sums_comm xs ys)

abbrev toy : Primitives
toy = record {
  public_of = λ a. a;
  diffie_hellman = sums;
  expand = λ salt secret. salt ++ secret;
  hmac = λ key msg. key ++ msg;
  verify_slice = λ key msg tag. text_eq (key ++ msg) tag;
}

toy-IsAgreement : IsAgreement toy
toy-IsAgreement = record {
  agrees = λ a b. sums_comm a b;
  verifies = λ key msg. text_eq_refl (key ++ msg);
}

abbrev some_session : ClientSession
some_session = record { state = registered 4; revoke_list = new_list }

abbrev some_events : List SessionEvent
some_events = link_lost ∷ challenge_failed ∷ revoked 9 ∷ challenge_ok ∷ register_ok 4 ∷ []

behind-holder_example :
    (holder (behind some_events some_session).state ≡ some 4) ⊎ In (revoked 4) some_events
behind-holder_example = behind-holder some_events some_session 4 refl
