-- ===== src/Coord.antt =====
-- rill-coord/src: the coordinator.
pub mod Liveness
pub mod Keys
