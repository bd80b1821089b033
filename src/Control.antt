-- ===== src/Control.antt =====
-- rill-core/src/control: who may join a network, and who may reach what.
pub mod Registry
pub mod Acl
pub mod Revoke
pub mod Session
pub mod Challenge
mod Examples
