-- ===== src/Coord/Keys/Examples.antt =====
-- Three revocations within a window.
use landscape_rill.Base.{◌≡◌, refl, true, false, none, [], ◌∷◌, arith}
use landscape_rill.Coord.Keys.{KeyManager, next_version, take_revoke_rotation}
use landscape_rill.Coord.Keys.Window.{arm_all, take-arm_all}

abbrev manager : KeyManager
manager = record { master_key = 7 ∷ []; key_version = 1; pending_revoke_rotation = none }

take-arm_all_example :
    (let waiting = arm_all (100 ∷ 130 ∷ 140 ∷ []) manager in
      let rotated = record manager {
        key_version = next_version 1;
        pending_revoke_rotation = none;
      } in
      (take_revoke_rotation 99 waiting ≡ (waiting, false))
      × (take_revoke_rotation 120 waiting ≡ (rotated, true))
      × (take_revoke_rotation 150 rotated ≡ (rotated, false)))
take-arm_all_example =
    take-arm_all 100 (130 ∷ 140 ∷ []) 99 120 150 manager refl (omega arith) (omega arith)
