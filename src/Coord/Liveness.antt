-- ===== src/Coord/Liveness.antt =====
-- rill-coord/src/liveness.rs: heartbeats, and which nodes are offline.
pub mod Expiry
mod Examples
use landscape_rill.Base.{
  ℕ, ◌-◌, ◌==◌, Bool, true, false, ◌&&◌, not, Option, List, [], ◌∷◌, ◌++◌, any, filter, ltb,
  if◌then◌else◌,
}
use landscape_rill.Base.Assoc.{lookup, insert, erase}
use landscape_rill.Control.Registry.{id_eq}

abbrev pub lease_expiry_secs : ℕ
lease_expiry_secs = 60

pub record Liveness : Type 0 where
  pub last_seen : List (ℕ × ℕ)
  pub offline : List ℕ

unfoldable pub new_liveness : Liveness
new_liveness = record { last_seen = []; offline = [] }

abbrev pub holds : ℕ → List ℕ → Bool
holds node_id ids = any (λ id. id == node_id) ids

abbrev pub without : ℕ → List ℕ → List ℕ
without node_id ids = filter (λ id. not (id == node_id)) ids

abbrev pub is_offline : ℕ → Liveness → Bool
is_offline node_id l = holds node_id l.offline

abbrev pub last_seen_of : ℕ → Liveness → Option ℕ
last_seen_of node_id l = lookup node_id l.last_seen

-- The state, and whether the node comes back.
unfoldable pub heartbeat : ℕ → ℕ → Liveness → Liveness × Bool
heartbeat node_id now l = (
  record { last_seen = insert node_id now l.last_seen; offline = without node_id l.offline },
  is_offline node_id l,
)

abbrev pub is_expired : ℕ → ℕ → Bool
is_expired now seen = ltb lease_expiry_secs (now - seen)

-- The nodes that `sweep` finds, in the order of the map; `saturating_sub` is that of the numbers.
abbrev pub expired : ℕ → List ℕ → List (ℕ × ℕ) → List ℕ
expired now offline [] = []
expired now offline ((id, seen) ∷ m) =
    let rest = expired now offline m in
    if is_expired now seen && not (holds id offline) then id ∷ rest else rest

unfoldable pub sweep : ℕ → Liveness → Liveness × List ℕ
sweep now l =
    let found = expired now l.offline l.last_seen in
    (record l { offline = l.offline ++ found }, found)

unfoldable pub mark_offline : ℕ → Liveness → Liveness × Bool
mark_offline node_id l =
    if is_offline node_id l
    then (l, false)
    else (record l { offline = l.offline ++ (node_id ∷ []) }, true)

unfoldable pub remove_node : ℕ → Liveness → Liveness
remove_node node_id l = record {
  last_seen = erase node_id l.last_seen;
  offline = without node_id l.offline;
}
