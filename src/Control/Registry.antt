-- ===== src/Control/Registry.antt =====
-- rill-core/src/control/registry.rs: the registry of one network. The hash maps are association
-- lists, a public key is the list of its bytes.
pub mod Valid
pub mod Admission
pub mod Operations
pub mod Spent
pub mod Binding
pub mod Restore
use landscape_rill.Base.{
  ℕ, ◌==◌, ==_iff, Bool, true, false, ◌&&◌, not, Option, none, some, List, [], ◌∷◌, ◌++◌, any,
  if◌then◌else◌, Result, ok, err, ◌>>=◌, ◌>>◌, guard,
}
use landscape_rill.Base.Assoc.{Eq, lookup, insert, erase}
use landscape_rill.Base.Bytes.{be_bytes}
use landscape_rill.Base.Text.{Text, text_eq, text_eq_iff}
use landscape_rill.Route.Prefix.{Prefix, IpAddr, is_covered_by}
use landscape_rill.Route.Prefix.Parse.{parse}

instance abbrev pub id_eq : Eq ℕ
id_eq = record { beq = ◌==◌; beq_iff = ==_iff }

instance abbrev pub text_Eq : Eq Text
text_Eq = record { beq = text_eq; beq_iff = text_eq_iff }

pub data AuthKeyPolicy : Type 0 where
  one_time : AuthKeyPolicy
  reusable : AuthKeyPolicy

pub record AuthKeySpec : Type 0 where
  pub policy : AuthKeyPolicy
  pub tag : Option Text

abbrev pub simple : AuthKeyPolicy → AuthKeySpec
simple policy = record { policy = policy; tag = none }

pub record NodeEntry : Type 0 where
  pub node_id : ℕ
  pub network_id : ℕ
  pub static_pubkey : List ℕ
  pub capabilities : ℕ
  pub routes : List Text
  pub identity_binding : List ℕ
  pub binding_log_id : ℕ × ℕ

pub data RegisterError : Type 0 where
  invalid_auth_key : RegisterError
  pubkey_mismatch : RegisterError
  route_not_allowed : RegisterError
  bad_route : RegisterError
  acl_capability_required : RegisterError

pub data RegisterOutcome : Type 0 where
  new_node : ℕ → RegisterOutcome
  existing : ℕ → RegisterOutcome

-- How a registration ends without an outcome: refused, or in the panic of an `unwrap`.
pub data Refusal : Type 0 where
  refused : RegisterError → Refusal
  panicked : Refusal

pub record Registry : Type 0 where
  pub entries : List (ℕ × NodeEntry)
  pub pubkeys : List (List ℕ × ℕ)
  pub auth_keys : List (Text × AuthKeySpec)
  pub consumed_one_time : List Text
  pub announce_whitelist : List Prefix
  pub network_id : ℕ

unfoldable pub new_registry : ℕ → Registry
new_registry network_id = record {
  entries = [];
  pubkeys = [];
  auth_keys = [];
  consumed_one_time = [];
  announce_whitelist = [];
  network_id = network_id;
}

abbrev pub is_consumed : Text → Registry → Bool
is_consumed key reg = any (λ k. text_eq k key) reg.consumed_one_time

unfoldable pub add_auth_key_spec : Text → AuthKeySpec → Registry → Registry
add_auth_key_spec key spec reg =
    if is_consumed key reg then reg else record reg { auth_keys = insert key spec reg.auth_keys }

abbrev pub add_auth_key : Text → AuthKeyPolicy → Registry → Registry
add_auth_key key policy reg = add_auth_key_spec key (simple policy) reg

unfoldable pub remove_auth_key : Text → Registry → Registry
remove_auth_key key reg = record reg { auth_keys = erase key reg.auth_keys }

unfoldable pub set_announce_whitelist : List Prefix → Registry → Registry
set_announce_whitelist whitelist reg = record reg { announce_whitelist = whitelist }

abbrev pub is_some : {A : Type 0} → Option A → Bool
is_some none = false
is_some (some a) = true

abbrev pub has_auth_key : Text → Registry → Bool
has_auth_key key reg = is_some (lookup key reg.auth_keys)

abbrev pub entry : ℕ → Registry → Option NodeEntry
entry node_id reg = lookup node_id reg.entries

abbrev pub node_id_by_pubkey : List ℕ → Registry → Option ℕ
node_id_by_pubkey static_pubkey reg = lookup static_pubkey reg.pubkeys

-- "rill-binding-v2", the id, the key and the log position.
unfoldable pub binding_message : ℕ → List ℕ → ℕ × ℕ → List ℕ
binding_message node_id static_pubkey issuance =
    (114 ∷ 105 ∷ 108 ∷ 108 ∷ 45 ∷ 98 ∷ 105 ∷ 110 ∷ 100 ∷ 105 ∷ 110 ∷ 103 ∷ 45 ∷ 118 ∷ 50 ∷ [])
    ++ (be_bytes 4 node_id ++ (static_pubkey ++ (be_bytes 8 issuance.0 ++ be_bytes 8 issuance.1)))

-- A prefix that was read, against the whitelist.
abbrev pub check_covered : List Prefix → Option Prefix → Result Refusal (Unit {0})
check_covered whitelist none = err (refused bad_route)
check_covered whitelist (some prefix) =
    guard (any (λ allowed. is_covered_by prefix allowed) whitelist) (refused route_not_allowed)

-- `routes == routes` of two lists of strings.
abbrev pub routes_eq : List Text → List Text → Bool
routes_eq [] [] = true
routes_eq [] (y ∷ ys) = false
routes_eq (x ∷ xs) [] = false
routes_eq (x ∷ xs) (y ∷ ys) = text_eq x y && routes_eq xs ys

-- The arguments of `register`.
pub record Request : Type 0 where
  pub auth_key : Text
  pub static_pubkey : List ℕ
  pub capabilities : ℕ
  pub routes : List Text
  pub node_id : ℕ
  pub issuance : ℕ × ℕ

-- A known public key: the entry it names must be the same registration.
abbrev pub known : Request → ℕ → Option NodeEntry → Result Refusal RegisterOutcome
known req node_id none = err panicked
known req node_id (some e) =
    if e.capabilities == req.capabilities && routes_eq e.routes req.routes
    then ok (existing node_id)
    else err (refused pubkey_mismatch)

-- A one-time key goes with its registration and is remembered.
abbrev pub consume : AuthKeyPolicy → Text → Registry → Registry
consume reusable key reg = reg
consume one_time key reg = record reg {
  auth_keys = erase key reg.auth_keys;
  consumed_one_time = reg.consumed_one_time ++ (key ∷ []);
}

-- `IdentitySigner::sign`, and the readers of `u8` and `IpAddr` of the standard library.
module _ (sign : List ℕ → List ℕ) (parse_u8 : Text → Option ℕ)
    (parse_ip : Text → Option IpAddr) where
  unfoldable pub check_announce_routes : List Prefix → List Text → Result Refusal (Unit {0})
  check_announce_routes whitelist [] = ok tt
  check_announce_routes whitelist (route ∷ routes) =
      let rest = check_announce_routes whitelist routes in
      check_covered whitelist (parse parse_u8 parse_ip route) >> rest

  abbrev pub new_entry : Request → Registry → NodeEntry
  new_entry req reg = record {
    node_id = req.node_id;
    network_id = reg.network_id;
    static_pubkey = req.static_pubkey;
    capabilities = req.capabilities;
    routes = req.routes;
    identity_binding = sign (binding_message req.node_id req.static_pubkey req.issuance);
    binding_log_id = req.issuance;
  }

  abbrev pub inserted : Request → Registry → Registry
  inserted req reg = record reg {
    entries = insert req.node_id (new_entry req reg) reg.entries;
    pubkeys = insert req.static_pubkey req.node_id reg.pubkeys;
  }

  abbrev pub checked :
      AuthKeySpec
      → Request
      → Registry
      → Result Refusal (Unit {0})
      → Registry × Result Refusal RegisterOutcome
  checked spec req reg (err e) = (reg, err e)
  checked spec req reg (ok _) =
      (consume spec.policy req.auth_key (inserted req reg), ok (new_node req.node_id))

  abbrev pub with_owner :
      AuthKeySpec → Request → Registry → Option ℕ → Registry × Result Refusal RegisterOutcome
  with_owner spec req reg (some node_id) = (reg, known req node_id (lookup node_id reg.entries))
  with_owner spec req reg none =
      checked spec req reg (check_announce_routes reg.announce_whitelist req.routes)

  abbrev pub with_spec :
      Request → Registry → Option AuthKeySpec → Registry × Result Refusal RegisterOutcome
  with_spec req reg none = (reg, err (refused invalid_auth_key))
  with_spec req reg (some spec) = with_owner spec req reg (lookup req.static_pubkey reg.pubkeys)

  unfoldable pub register : Request → Registry → Registry × Result Refusal RegisterOutcome
  register req reg = with_spec req reg (lookup req.auth_key reg.auth_keys)

abbrev pub dropped : ℕ → Registry → Option NodeEntry → Registry
dropped node_id reg none = reg
dropped node_id reg (some e) = record reg {
  entries = erase node_id reg.entries;
  pubkeys = erase e.static_pubkey reg.pubkeys;
}

unfoldable pub revoke : ℕ → Registry → Registry
revoke node_id reg = dropped node_id reg (lookup node_id reg.entries)

abbrev pub restored : List NodeEntry → Registry → Registry
restored [] reg = reg
restored (e ∷ es) reg = restored es (record reg {
  entries = insert e.node_id e reg.entries;
  pubkeys = insert e.static_pubkey e.node_id reg.pubkeys;
})

unfoldable pub restore : List NodeEntry → List Text → Registry → Registry
restore es consumed reg = record (restored es (record reg { entries = []; pubkeys = [] })) {
  consumed_one_time = consumed;
}
