-- ===== src/Coord/Keys.antt =====
-- rill-coord/src/keys.rs: the master key, its version, and the window in which revocations share one
-- rotation. The key derivations of rill-core/src/crypto/mod.rs stand over the HKDF of the hkdf crate.
pub mod Window
mod Examples
use landscape_rill.Base.{
  ℕ, ◌+◌, ◌%◌, ◌^◌, Bool, true, false, Option, none, some, List, [], ◌∷◌, ◌++◌, leb, if◌then◌else◌,
}
use landscape_rill.Base.Bytes.{be_bytes}

pub record KeyManager : Type 0 where
  pub master_key : List ℕ
  pub key_version : ℕ
  pub pending_revoke_rotation : Option ℕ

unfoldable pub new_manager : List ℕ → KeyManager
new_manager master_key = record {
  master_key = master_key;
  key_version = 1;
  pending_revoke_rotation = none;
}

-- `Hkdf::expand` without a salt, of a key and an info.
module _ (expand : List ℕ → List ℕ → List ℕ) where
  -- "key_dst" and the node.
  unfoldable pub derive_key_dst : List ℕ → ℕ → List ℕ
  derive_key_dst master_key to_node_id =
      expand master_key ((107 ∷ 101 ∷ 121 ∷ 95 ∷ 100 ∷ 115 ∷ 116 ∷ []) ++ be_bytes 4 to_node_id)

  -- "key_path", the path and its epoch.
  unfoldable pub derive_key_path : List ℕ → ℕ → ℕ → List ℕ
  derive_key_path master_key path_id path_epoch = expand master_key (
      (107 ∷ 101 ∷ 121 ∷ 95 ∷ 112 ∷ 97 ∷ 116 ∷ 104 ∷ [])
      ++ (be_bytes 8 path_id ++ be_bytes 4 path_epoch))

  unfoldable pub key_for : ℕ → KeyManager → List ℕ
  key_for node_id m = derive_key_dst m.master_key node_id

  unfoldable pub broadcast_key : KeyManager → List ℕ
  broadcast_key m = derive_key_dst m.master_key 0xffffffff

  unfoldable pub key_path_for : ℕ → ℕ → KeyManager → List ℕ
  key_path_for path_id path_epoch m = derive_key_path m.master_key path_id path_epoch

-- `key_version += 1` of a release build.
abbrev pub next_version : ℕ → ℕ
next_version v = (v + 1) % 2 ^ 32

unfoldable pub rotate : List ℕ → KeyManager → KeyManager
rotate new_master_key m = record m {
  master_key = new_master_key;
  key_version = next_version m.key_version;
}

abbrev pub first_deadline : Option ℕ → ℕ → Option ℕ
first_deadline none deadline = some deadline
first_deadline (some d) deadline = some d

unfoldable pub arm_revoke_rotation : ℕ → KeyManager → KeyManager
arm_revoke_rotation deadline m = record m {
  pending_revoke_rotation = first_deadline m.pending_revoke_rotation deadline;
}

abbrev pub is_due : ℕ → Option ℕ → Bool
is_due now none = false
is_due now (some d) = leb d now

unfoldable pub take_revoke_rotation : ℕ → KeyManager → KeyManager × Bool
take_revoke_rotation now m =
    if is_due now m.pending_revoke_rotation
    then (
      record m { pending_revoke_rotation = none; key_version = next_version m.key_version },
      true,
    )
    else (m, false)

unfoldable pub clear_revoke_rotation : KeyManager → KeyManager
clear_revoke_rotation m = record m { pending_revoke_rotation = none }

unfoldable pub restore_revoke_rotation : ℕ → KeyManager → KeyManager
restore_revoke_rotation deadline m = record m { pending_revoke_rotation = some deadline }

unfoldable pub restore_version : ℕ → KeyManager → KeyManager
restore_version key_version m = record m { key_version = key_version }
