-- ===== src/Coord/Liveness/Examples.antt =====
-- Two nodes, one of them silent.
use landscape_rill.Base.{◌≡◌, refl, false, ◌&&◌, ◌||◌, not, [], ◌∷◌, arith}
use landscape_rill.Coord.Liveness.{Liveness, holds, is_offline, last_seen_of, heartbeat, sweep}
use landscape_rill.Coord.Liveness.Expiry.{lapsed, sweep-is_offline, heartbeat-sweep}

abbrev two_nodes : Liveness
two_nodes = record { last_seen = (1, 100) ∷ (2, 30) ∷ []; offline = [] }

swept : (sweep 120 two_nodes).1 ≡ 2 ∷ []
unfolding sweep
swept = refl

sweep-is_offline_example :
    (is_offline 2 (sweep 120 two_nodes).0
      ≡ (is_offline 2 two_nodes || lapsed 120 (last_seen_of 2 two_nodes)))
    × (holds 2 (sweep 120 two_nodes).1
        ≡ (lapsed 120 (last_seen_of 2 two_nodes) && not (is_offline 2 two_nodes)))
sweep-is_offline_example = sweep-is_offline 2 120 two_nodes (refl, (refl, tt))

heartbeat-sweep_example :
    (is_offline 2 (sweep 180 (heartbeat 2 120 two_nodes).0).0 ≡ false)
    × ((heartbeat 2 120 two_nodes).1 ≡ is_offline 2 two_nodes)
heartbeat-sweep_example = heartbeat-sweep 2 120 180 two_nodes (refl, (refl, tt)) (omega arith)
