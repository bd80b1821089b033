-- ===== src/Dn42/Fsm/Endings.antt =====
-- How the machine closes a connection.
use landscape_rill.Base.{ℕ, ◌≡◌, refl, ◌⊎◌, inl, inr, List, [], ◌∷◌, In, Option-cases, arith}
use landscape_rill.Dn42.Message.{
  OpenMsg, open_message, keepalive, notification, NotificationMsg, update, refresh,
}
use landscape_rill.Dn42.Fsm.{
  BgpFsm, State, idle, connect, open_sent, open_confirm, established, Event, received, step,
  open_error, Action, send, close, started, tcp_established, tcp_closed, hold_timer, ceased,
  max_prefix, refuse, open_in, keepalive_in, established_only, hold_timer_in, tcp_established_in,
  on_open, on_keepalive, on_update, on_hold_timer, on_tcp_established, on_message, cease,
  notify_max_prefix,
}

-- A NOTIFICATION and the close behind it.
abbrev pub IsRefusal : List Action → Type 0
IsRefusal actions = (n : NotificationMsg) × (actions ≡ send (notification n) ∷ close ∷ [])

-- A result that closes the connection does so behind a NOTIFICATION, in `Idle`.
IsOrderly : BgpFsm × List Action → Type 0
IsOrderly r = In close r.1 → (r.0.state ≡ idle) × IsRefusal r.1

refuse-IsOrderly : (s : BgpFsm) (code subcode : ℕ) → IsOrderly (refuse s code subcode)
unfolding IsOrderly
refuse-IsOrderly s code subcode i =
    (refl, (record { code = code; subcode = subcode; payload = [] }, refl))

open-IsOrderly : (s : BgpFsm) (o : OpenMsg) (st : State) → IsOrderly (open_in st s o)
unfolding IsOrderly
open-IsOrderly s o open_sent = elim (Option-cases (open_error s.local o)) [
  | inl none_found ↦ rw none_found (λ i. ground arith)
  | inr (subcode, found) ↦ rw found (refuse-IsOrderly s 2 subcode)
]
open-IsOrderly s o _ = refuse-IsOrderly s 5 1

keepalive-IsOrderly : (s : BgpFsm) (st : State) → IsOrderly (keepalive_in st s)
unfolding IsOrderly
keepalive-IsOrderly s open_confirm i = elim i [ ]
keepalive-IsOrderly s established i = elim i [ ]
keepalive-IsOrderly s _ i = refuse-IsOrderly s 5 1 i

only-IsOrderly : (s : BgpFsm) (st : State) → IsOrderly (established_only st s)
unfolding IsOrderly
only-IsOrderly s established i = elim i [ ]
only-IsOrderly s _ i = refuse-IsOrderly s 5 1 i

timer-IsOrderly : (s : BgpFsm) (st : State) → IsOrderly (hold_timer_in st s)
unfolding IsOrderly
timer-IsOrderly s open_confirm i = refuse-IsOrderly s 4 0 i
timer-IsOrderly s established i = refuse-IsOrderly s 4 0 i
timer-IsOrderly s _ i = elim i [ ]

tcp-IsOrderly : (s : BgpFsm) (st : State) → IsOrderly (tcp_established_in st s)
unfolding IsOrderly
tcp-IsOrderly s idle i = ground arith
tcp-IsOrderly s connect i = ground arith
tcp-IsOrderly s _ i = refuse-IsOrderly s 5 1 i

-- A step that closes the connection leaves the machine in `Idle`, and says why in a NOTIFICATION
-- right before the close, unless it answers a NOTIFICATION, to which it sends nothing.
pub step-close :
    (s : BgpFsm) (e : Event)
    → In close (step s e).1
    → ((step s e).0.state ≡ idle)
      × (IsRefusal (step s e).1
          ⊎ ((n : NotificationMsg) × (e ≡ received (notification n)) × ((step s e).1 ≡ close ∷ [])))
unfolding step on_message on_open on_keepalive on_update on_hold_timer on_tcp_established cease
    notify_max_prefix IsOrderly
step-close s (received (open_message o)) i =
    let (down, why) = open-IsOrderly s o s.state i in (down, inl why)
step-close s (received keepalive) i =
    let (down, why) = keepalive-IsOrderly s s.state i in (down, inl why)
step-close s (received (update u)) i =
    let (down, why) = only-IsOrderly s s.state i in (down, inl why)
step-close s (received (refresh r)) i =
    let (down, why) = only-IsOrderly s s.state i in (down, inl why)
step-close s (received (notification n)) i = (refl, inr (n, refl, refl))
step-close s hold_timer i = let (down, why) = timer-IsOrderly s s.state i in (down, inl why)
step-close s tcp_established i = let (down, why) = tcp-IsOrderly s s.state i in (down, inl why)
step-close s max_prefix i = let (down, why) = refuse-IsOrderly s 6 1 i in (down, inl why)
step-close s started i = elim i [ ]
step-close s tcp_closed i = elim i [ ]
step-close s ceased i = ground arith
