-- ===== src/Route/Engine/Examples.antt =====
-- Runs of the engine, and its theorems at concrete inputs.
use landscape_rill.Base.{◌*◌, ◌^◌, ◌≡◌, not, refl, Bool, true, false, some, none, [], ◌∷◌, filter}
use landscape_rill.Base.Text.{Text}
use landscape_rill.Route.Prefix
use landscape_rill.Route.Prefix.{Prefix, IpAddr, ipv4}
use landscape_rill.Route.Entry.{RouteSource, RouteVia, RouteEntry, mesh_node, dn42_peer, direct}
use landscape_rill.Route.Table
use landscape_rill.Route.Table.{LpmTable, is_named}
use landscape_rill.Route.Engine.{lookup, lookup_best, remove_dn42_peer, dn42_via}
use landscape_rill.Route.Engine.Remove.{lookup-remove_where}

-- 10.0.0.0/8 and 10.1.0.0/16.
abbrev ten : Prefix
ten = record { bits = 10 * 2 ^ 120; len = 8; v4 = true }

abbrev ten_one : Prefix
ten_one = record { bits = 0x0a01 * 2 ^ 112; len = 16; v4 = true }

abbrev peer_a : Text
peer_a = b'a' ∷ []

abbrev peer_b : Text
peer_b = b'b' ∷ []

abbrev entry : Prefix → RouteSource → RouteVia → RouteEntry
entry p s v = record { prefix = p; source = s; via = v; metric = none }

abbrev wide : RouteEntry
wide = entry ten RouteSource.mesh (mesh_node 1)

abbrev lan : RouteEntry
lan = entry ten_one RouteSource.lan (direct (b'e' ∷ []))

abbrev dn42_a : RouteEntry
dn42_a = entry ten_one RouteSource.dn42 (dn42_peer peer_a)

abbrev dn42_b : RouteEntry
dn42_b = entry ten_one RouteSource.dn42 (dn42_peer peer_b)

abbrev sample : LpmTable
sample = wide ∷ dn42_a ∷ dn42_b ∷ lan ∷ []

-- 10.1.2.3.
abbrev addr : IpAddr
addr = ipv4 0x0a010203

abbrev anything : RouteEntry → Bool
anything e = true

-- The longest prefix wins, then the source; an unreachable entry falls through.
best_sample : lookup_best sample addr anything ≡ some lan
unfolding lookup_best lookup Table.matches Prefix.matches Prefix.contains Prefix.significant
    Prefix.from_ip Prefix.new
best_sample = refl

none-sample : lookup_best sample addr (λ e. false) ≡ none
unfolding lookup_best lookup Table.matches Prefix.matches Prefix.contains Prefix.significant
    Prefix.from_ip Prefix.new
none-sample = refl

wide_matches : Prefix.matches ten addr ≡ true
unfolding Prefix.matches Prefix.contains Prefix.significant Prefix.from_ip Prefix.new
wide_matches = refl

lookup-remove_where_example :
    lookup (Table.remove_where anything sample) addr
    ≡ filter (λ c. not (anything c.0)) (lookup sample addr)
lookup-remove_where_example = lookup-remove_where anything sample addr

other_supplier : dn42_via (remove_dn42_peer peer_a sample) ten_one ≡ some peer_b
unfolding dn42_via remove_dn42_peer Table.remove_where Prefix.prefix_eq
other_supplier = refl
