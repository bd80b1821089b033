-- ===== src/Dn42.antt =====
-- rill-dn42/src: the eBGP-lite leg. Messages, import policy, routing table, protocol machine.
pub mod Message
pub mod Wire
pub mod BgpPath
pub mod Policy
pub mod Rib
pub mod Fsm
pub mod Session
