-- ===== src/Dn42/Session.antt =====
-- rill-dn42/src/session/mod.rs: what a session announces, the bytes that its actions queue, and where
-- a packet out of the tunnel goes.
pub mod Stream
pub mod Export
mod Examples
use landscape_rill.Base.{
  ℕ, ◌/◌, ◌==◌, Bool, true, false, ◌&&◌, not, Option, none, some, List, [], ◌∷◌, ◌++◌, length, take,
  drop, filter, ltb, if◌then◌else◌, Result, ok, err,
}
use landscape_rill.Base.Bytes.{be_bytes}
use landscape_rill.Base.Text.{text_eq}
use landscape_rill.Route.Prefix.{Prefix, IpAddr, ipv6}
use landscape_rill.Dn42.Message.{
  afi_ipv6, safi_unicast, Segment, PathAttr, origin, as_path, next_hop, mp_reach, UpdateMsg,
  Message, update,
}
use landscape_rill.Dn42.Wire.{WireError}
use landscape_rill.Dn42.Wire.Write.{encode}
use landscape_rill.Dn42.Policy.{ExportPolicy}
use landscape_rill.Dn42.Fsm.{Action, send, close}

-- The fields of `PeerConfig` that the functions below read; `local_as` is that of its `bgp`.
pub record PeerConfig : Type 0 where
  pub local_v4 : ℕ
  pub local_v6 : ℕ
  pub local_as : ℕ

pub data Destiny : Type 0 where
  netstack : List ℕ → Destiny
  forward : List ℕ → Destiny

abbrev pub destiny : Bool → List ℕ → Destiny
destiny true pkt = netstack pkt
destiny false pkt = forward pkt

unfoldable pub classify : List ℕ → ℕ → ℕ → Option Destiny
classify [] local_v4 local_v6 = none
classify (v ∷ rest) local_v4 local_v6 =
    let pkt = v ∷ rest in
    if v / 16 == 4 && not (ltb (length pkt) 20)
    then some (destiny (text_eq (take 4 (drop 16 pkt)) (be_bytes 4 local_v4)) pkt)
    else if v / 16 == 6 && not (ltb (length pkt) 40)
    then some (destiny (text_eq (take 16 (drop 24 pkt)) (be_bytes 16 local_v6)) pkt)
    else none

-- The queue behind a message: unchanged where `encode` refuses it.
abbrev pub extended : List ℕ → List ℕ × Result WireError (Unit {0}) → List ℕ
extended out (buf, ok _) = out ++ buf
extended out (buf, err e) = out

unfoldable pub queue_action : Action → List ℕ → List ℕ
queue_action (send msg) out = extended out (encode msg [])
queue_action close out = out

-- The actions queued in turn.
unfoldable pub queue_actions : List Action → List ℕ → List ℕ
queue_actions [] out = out
queue_actions (a ∷ acts) out = queue_actions acts (queue_action a out)

abbrev pub some_if : Bool → Message → List Message
some_if true m = m ∷ []
some_if false m = []

abbrev pub is_nil : List Prefix → Bool
is_nil [] = true
is_nil (p ∷ ps) = false

abbrev pub own_path : PeerConfig → PathAttr
own_path cfg = as_path (record { is_set = false; asns = cfg.local_as ∷ [] } ∷ [])

abbrev pub announce_v4 : List Prefix → PeerConfig → Message
announce_v4 v4 cfg = update (record {
  withdrawn = [];
  attrs = origin 0 ∷ own_path cfg ∷ next_hop cfg.local_v4 ∷ [];
  announced = v4;
})

abbrev pub announce_v6 : List Prefix → PeerConfig → Message
announce_v6 v6 cfg = update (record {
  withdrawn = [];
  attrs = origin 0 ∷ own_path cfg ∷ mp_reach afi_ipv6 safi_unicast (ipv6 cfg.local_v6) v6 ∷ [];
  announced = [];
})

abbrev pub end_of_rib : Message
end_of_rib = update (record { withdrawn = []; attrs = []; announced = [] })

unfoldable pub export_messages : ExportPolicy → PeerConfig → List Message
export_messages export cfg =
    let v4 = filter (λ (p : Prefix). p.v4) export.own_prefixes in
    let v6 = filter (λ (p : Prefix). not p.v4) export.own_prefixes in
    some_if (not (is_nil v4)) (announce_v4 v4 cfg)
    ++ (some_if (not (is_nil v6)) (announce_v6 v6 cfg) ++ (end_of_rib ∷ []))
