-- ===== src/Dn42/Message.antt =====
-- rill-dn42/src/wire/mod.rs: the message types and their constants. An `Ipv4Addr` is the u32 of
-- its octets.
use landscape_rill.Base.{ℕ, Bool, List}
use landscape_rill.Route.Prefix.{Prefix, IpAddr}

abbrev pub afi_ipv4 : ℕ
afi_ipv4 = 1

abbrev pub afi_ipv6 : ℕ
afi_ipv6 = 2

abbrev pub safi_unicast : ℕ
safi_unicast = 1

pub data Capability : Type 0 where
  mp_bgp : ℕ → ℕ → Capability
  route_refresh : Capability
  four_octet_as : ℕ → Capability

pub record OpenMsg : Type 0 where
  pub as4 : ℕ
  pub hold_time : ℕ
  pub bgp_id : ℕ
  pub capabilities : List Capability

pub record Segment : Type 0 where
  pub is_set : Bool
  pub asns : List ℕ

pub data PathAttr : Type 0 where
  origin : ℕ → PathAttr
  as_path : List Segment → PathAttr
  as4_path : List Segment → PathAttr
  next_hop : ℕ → PathAttr
  communities : List ℕ → PathAttr
  -- afi, safi, next hop, nlri
  mp_reach : ℕ → ℕ → IpAddr → List Prefix → PathAttr
  -- afi, safi, nlri
  mp_unreach : ℕ → ℕ → List Prefix → PathAttr

pub record UpdateMsg : Type 0 where
  pub withdrawn : List Prefix
  pub attrs : List PathAttr
  pub announced : List Prefix

pub record NotificationMsg : Type 0 where
  pub code : ℕ
  pub subcode : ℕ
  pub payload : List ℕ

pub record RouteRefreshMsg : Type 0 where
  pub afi : ℕ
  pub safi : ℕ

pub data Message : Type 0 where
  open_message : OpenMsg → Message
  update : UpdateMsg → Message
  notification : NotificationMsg → Message
  keepalive : Message
  refresh : RouteRefreshMsg → Message
