-- ===== src/Dn42/Fsm.antt =====
-- rill-dn42/src/fsm/mod.rs: the eBGP state machine. A handler takes the machine and returns the new
-- one with the actions; the text of an error, which the code drops, is left out.
pub mod Open
pub mod Steps
pub mod Trace
pub mod Endings
mod Examples
use landscape_rill.Base.{
  ℕ, ◌/◌, Bool, true, false, ◌&&◌, ◌||◌, not, Option, none, some, List, [], ◌∷◌, leb, ltb, ◌==◌,
  if◌then◌else◌,
}
use landscape_rill.Dn42.Message.{
  afi_ipv4, afi_ipv6, safi_unicast, Capability, mp_bgp, route_refresh, four_octet_as, OpenMsg,
  Message, open_message, update, notification, keepalive, refresh, NotificationMsg, UpdateMsg,
}

abbrev pub err_open : ℕ
err_open = 2

abbrev pub err_hold_timer : ℕ
err_hold_timer = 4

abbrev pub err_fsm : ℕ
err_fsm = 5

abbrev pub err_cease : ℕ
err_cease = 6

abbrev pub sub_bad_peer_as : ℕ
sub_bad_peer_as = 2

abbrev pub sub_bad_bgp_id : ℕ
sub_bad_bgp_id = 3

abbrev pub sub_unacceptable_hold_time : ℕ
sub_unacceptable_hold_time = 6

abbrev pub sub_unsupported_capability : ℕ
sub_unsupported_capability = 7

abbrev pub sub_max_prefixes : ℕ
sub_max_prefixes = 1

pub data State : Type 0 where
  idle : State
  connect : State
  open_sent : State
  open_confirm : State
  established : State

pub record LocalConfig : Type 0 where
  pub as4 : ℕ
  pub bgp_id : ℕ
  pub hold_time : ℕ
  pub peer_as4 : Option ℕ

pub data Action : Type 0 where
  send : Message → Action
  close : Action

pub record BgpFsm : Type 0 where
  pub state : State
  pub local : LocalConfig
  pub negotiated_hold : ℕ

-- `BgpFsm::new`.
unfoldable pub new_fsm : LocalConfig → BgpFsm
new_fsm local = record { state = idle; local = local; negotiated_hold = local.hold_time }

abbrev pub max : ℕ → ℕ → ℕ
max a b = if leb a b then b else a

abbrev pub min : ℕ → ℕ → ℕ
min a b = if leb a b then a else b

-- In seconds.
unfoldable pub keepalive_interval : BgpFsm → Option ℕ
keepalive_interval s = if s.negotiated_hold == 0 then none else some (max (s.negotiated_hold / 3) 1)

abbrev pub notify : ℕ → ℕ → Action
notify code subcode = send (notification (record { code = code; subcode = subcode; payload = [] }))

abbrev pub to_state : State → BgpFsm → BgpFsm
to_state state s = record s { state = state }

-- The error ending that the handlers repeat: NOTIFICATION, `Idle`, close.
abbrev pub refuse : BgpFsm → ℕ → ℕ → BgpFsm × List Action
refuse s code subcode = (to_state idle s, notify code subcode ∷ close ∷ [])

abbrev pub notify_fsm_error : BgpFsm → BgpFsm × List Action
notify_fsm_error s = refuse s err_fsm 1

abbrev pub start : BgpFsm → BgpFsm
start s = to_state connect s

abbrev pub send_open : BgpFsm → BgpFsm × List Action
send_open s = (
  record s { state = open_sent; negotiated_hold = s.local.hold_time },
  send (
        open_message (record {
          as4 = s.local.as4;
          hold_time = s.local.hold_time;
          bgp_id = s.local.bgp_id;
          capabilities =
              mp_bgp afi_ipv4 safi_unicast
              ∷ mp_bgp afi_ipv6 safi_unicast
              ∷ route_refresh
              ∷ four_octet_as s.local.as4
              ∷ [];
        }))
      ∷ [],
)

abbrev pub tcp_established_in : State → BgpFsm → BgpFsm × List Action
tcp_established_in idle s = send_open s
tcp_established_in connect s = send_open s
tcp_established_in _ s = notify_fsm_error s

unfoldable pub on_tcp_established : BgpFsm → BgpFsm × List Action
on_tcp_established s = tcp_established_in s.state s

abbrev pub on_tcp_closed : BgpFsm → BgpFsm
on_tcp_closed s = to_state idle s

abbrev pub hold_timer_in : State → BgpFsm → BgpFsm × List Action
hold_timer_in open_confirm s = refuse s err_hold_timer 0
hold_timer_in established s = refuse s err_hold_timer 0
hold_timer_in _ s = (s, [])

unfoldable pub on_hold_timer : BgpFsm → BgpFsm × List Action
on_hold_timer s = hold_timer_in s.state s

-- `has_mp`, `has_as4` and `has_rr`.
pub record Required : Type 0 where
  pub has_mp : Bool
  pub has_as4 : Bool
  pub has_rr : Bool

abbrev pub note_capability : Required → Capability → Required
note_capability r (mp_bgp afi safi) =
    if safi == safi_unicast && (afi == afi_ipv4 || afi == afi_ipv6)
    then record r { has_mp = true }
    else r
note_capability r (four_octet_as asn) = record r { has_as4 = true }
note_capability r route_refresh = record r { has_rr = true }

unfoldable pub note_capabilities : Required → List Capability → Required
note_capabilities r [] = r
note_capabilities r (c ∷ cs) = note_capabilities (note_capability r c) cs

abbrev pub is_other_as : Option ℕ → ℕ → Bool
is_other_as none as4 = false
is_other_as (some expected) as4 = not (as4 == expected)

-- The agreed hold time: the smaller one, or none where either side has none.
unfoldable pub negotiate : ℕ → ℕ → ℕ
negotiate ours theirs = if ours == 0 || theirs == 0 then 0 else min ours theirs

-- The subcode of the first check of `on_open` that fails.
unfoldable pub open_error : LocalConfig → OpenMsg → Option ℕ
open_error local o =
    let found =
      note_capabilities (record { has_mp = false; has_as4 = false; has_rr = false })
        o.capabilities in
    if ltb 0 o.hold_time && ltb o.hold_time 3
    then some sub_unacceptable_hold_time
    else if is_other_as local.peer_as4 o.as4
    then some sub_bad_peer_as
    else if o.bgp_id == 0
    then some sub_bad_bgp_id
    else if not found.has_mp || not found.has_as4 || not found.has_rr
    then some sub_unsupported_capability
    else none

abbrev pub answer_open : Option ℕ → BgpFsm → OpenMsg → BgpFsm × List Action
answer_open (some subcode) s o = refuse s err_open subcode
answer_open none s o = (
  record s { state = open_confirm; negotiated_hold = negotiate s.local.hold_time o.hold_time },
  send keepalive ∷ [],
)

abbrev pub open_in : State → BgpFsm → OpenMsg → BgpFsm × List Action
open_in open_sent s o = answer_open (open_error s.local o) s o
open_in _ s o = notify_fsm_error s

unfoldable pub on_open : BgpFsm → OpenMsg → BgpFsm × List Action
on_open s o = open_in s.state s o

abbrev pub keepalive_in : State → BgpFsm → BgpFsm × List Action
keepalive_in open_confirm s = (to_state established s, [])
keepalive_in established s = (s, [])
keepalive_in _ s = notify_fsm_error s

unfoldable pub on_keepalive : BgpFsm → BgpFsm × List Action
on_keepalive s = keepalive_in s.state s

-- UPDATE and ROUTE-REFRESH: nothing in `Established`, an error elsewhere.
abbrev pub established_only : State → BgpFsm → BgpFsm × List Action
established_only established s = (s, [])
established_only _ s = notify_fsm_error s

unfoldable pub on_update : BgpFsm → UpdateMsg → BgpFsm × List Action
on_update s u = established_only s.state s

unfoldable pub on_message : BgpFsm → Message → BgpFsm × List Action
on_message s (open_message o) = on_open s o
on_message s keepalive = on_keepalive s
on_message s (update u) = on_update s u
on_message s (notification n) = (to_state idle s, close ∷ [])
on_message s (refresh r) = established_only s.state s

unfoldable pub cease : BgpFsm → BgpFsm × List Action
cease s = (to_state idle s, notify err_cease 0 ∷ [])

unfoldable pub notify_max_prefix : BgpFsm → BgpFsm × List Action
notify_max_prefix s = refuse s err_cease sub_max_prefixes

-- What the driver can call.
pub data Event : Type 0 where
  started : Event
  tcp_established : Event
  tcp_closed : Event
  hold_timer : Event
  received : Message → Event
  ceased : Event
  max_prefix : Event

unfoldable pub step : BgpFsm → Event → BgpFsm × List Action
step s started = (start s, [])
step s tcp_established = on_tcp_established s
step s tcp_closed = (on_tcp_closed s, [])
step s hold_timer = on_hold_timer s
step s (received m) = on_message s m
step s ceased = cease s
step s max_prefix = notify_max_prefix s

-- The machine behind the events of a list, the newest first.
unfoldable pub behind : LocalConfig → List Event → BgpFsm
behind local [] = new_fsm local
behind local (e ∷ earlier) = (step (behind local earlier) e).0
