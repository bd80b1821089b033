-- ===== src/Dn42/Fsm/Examples.antt =====
-- Runs of the state machine, and its theorems at concrete inputs.
use landscape_rill.Base.{
  ℕ, ◌*◌, ◌≤◌, ◌≡◌, refl, ◌⊎◌, inl, inr, some, none, arith, List, [], ◌∷◌, ◌++◌, All, In,
}
use landscape_rill.Dn42.Message.{
  OpenMsg, open_message, keepalive, update, notification, NotificationMsg, mp_bgp, route_refresh,
  four_octet_as,
}
use landscape_rill.Dn42.Fsm.{
  BgpFsm, LocalConfig, idle, open_sent, open_confirm, established, new_fsm, keepalive_interval,
  on_tcp_established, note_capabilities, open_error, on_open, on_keepalive, on_message, negotiate,
  Event, tcp_established, received, step, behind, close, on_update, on_hold_timer, hold_timer,
}
use landscape_rill.Dn42.Fsm.Open.{IsAcceptable, keepalive_interval-fits}
use landscape_rill.Dn42.Fsm.Steps.{IsQuiet}
use landscape_rill.Dn42.Fsm.Trace.{behind-established}
use landscape_rill.Dn42.Fsm.Endings.{IsRefusal, step-close}

abbrev config : LocalConfig
config = record {
  as4 = 4242420001;
  bgp_id = 0xac168e01;
  hold_time = 90;
  peer_as4 = some 4242422223;
}

abbrev their_open : OpenMsg
their_open = record {
  as4 = 4242422223;
  hold_time = 30;
  bgp_id = 0xac168e02;
  capabilities = mp_bgp 2 1 ∷ route_refresh ∷ four_octet_as 4242422223 ∷ [];
}

-- The newest event first.
abbrev confirmed : List Event
confirmed = received (open_message their_open) ∷ tcp_established ∷ []

abbrev up : List Event
up =
    received (update (record { withdrawn = []; attrs = []; announced = [] }))
    ∷ received keepalive
    ∷ confirmed

confirmed_state : (behind config confirmed).state ≡ open_confirm
unfolding behind new_fsm step on_message on_open on_tcp_established open_error note_capabilities
confirmed_state = refl

up_state : (behind config up).state ≡ established
unfolding behind new_fsm step on_message on_open on_tcp_established open_error note_capabilities
    on_keepalive on_update
up_state = refl

up_hold : (behind config up).negotiated_hold ≡ negotiate 90 30
unfolding behind new_fsm step on_message on_open on_tcp_established open_error note_capabilities
    on_keepalive on_update
up_hold = refl

behind-established_example :
    (quiet : List Event) × (o : OpenMsg) × (older : List Event) × (up
      ≡ quiet ++ (received keepalive ∷ received (open_message o) ∷ older))
    × All IsQuiet quiet
    × ((behind config older).state ≡ open_sent)
    × IsAcceptable config o
    × ((behind config up).negotiated_hold ≡ negotiate 90 o.hold_time)
behind-established_example = behind-established config up up_state

abbrev running : BgpFsm
running = record { state = established; local = config; negotiated_hold = 30 }

running_hold : running.negotiated_hold ≡ negotiate running.local.hold_time 30
unfolding negotiate
running_hold = refl

keepalive_interval-fits_example :
    ((running.negotiated_hold ≡ 0) × (keepalive_interval running ≡ none))
    ⊎ ((every : ℕ) × (keepalive_interval running ≡ some every)
        × (1 ≤ every)
        × (3 * every ≤ running.negotiated_hold)
        × (running.negotiated_hold ≤ running.local.hold_time)
        × (running.negotiated_hold ≤ 30))
keepalive_interval-fits_example =
    keepalive_interval-fits running 30 (inr (omega arith)) (inr (omega arith)) running_hold

timer_closes : In close (step running hold_timer).1
unfolding step on_hold_timer
timer_closes = inr (inl refl)

step-close_example :
    ((step running hold_timer).0.state ≡ idle)
    × (IsRefusal (step running hold_timer).1
        ⊎ ((n : NotificationMsg) × (hold_timer ≡ received (notification n))
            × ((step running hold_timer).1 ≡ close ∷ [])))
step-close_example = step-close running hold_timer timer_closes
