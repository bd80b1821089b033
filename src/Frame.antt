-- ===== src/Frame.antt =====
-- rill-core/src/frame: the mesh frame.
pub mod Header
pub mod Sealed
pub mod Replay
pub mod Unsealed
