-- ===== src/Route.antt =====
-- rill-core/src/route: prefixes, the routing table and engine, the default-route resolver.
pub mod Prefix
pub mod Entry
pub mod Table
pub mod Engine
pub mod Resolver
