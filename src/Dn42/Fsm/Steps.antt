-- ===== src/Dn42/Fsm/Steps.antt =====
-- The steps of the machine into `OpenConfirm` and `Established`.
use landscape_rill.Base.{◌≡◌, ◌≢◌, refl, ◌⊎◌, inl, inr, none, Option-cases}
use landscape_rill.Dn42.Message.{OpenMsg, open_message, update, notification, keepalive, refresh}
use landscape_rill.Dn42.Fsm.{
  BgpFsm, State, idle, connect, open_sent, open_confirm, established, tcp_established_in,
  on_tcp_established, hold_timer_in, on_hold_timer, open_error, open_in, on_open, keepalive_in,
  on_keepalive, established_only, on_update, on_message, cease, notify_max_prefix, Event, started,
  tcp_established, tcp_closed, hold_timer, received, ceased, max_prefix, step, negotiate,
}

-- Whether an event leaves an established session alone.
abbrev pub IsQuiet : Event → Type 0
IsQuiet (received keepalive) = Unit
IsQuiet (received (update u)) = Unit
IsQuiet (received (refresh r)) = Unit
IsQuiet _ = ⊥

module _ (s : BgpFsm) where
  open_in-confirm :
      (st : State) (o : OpenMsg)
      → (open_in st s o).0.state ≡ open_confirm
      → (st ≡ open_sent)
        × (open_error s.local o ≡ none)
        × ((open_in st s o).0.negotiated_hold ≡ negotiate s.local.hold_time o.hold_time)
  open_in-confirm open_sent o c = elim (Option-cases (open_error s.local o)) [
    | inl none_found ↦ (refl, none_found, rw none_found)
    | inr (subcode, found) ↦ cc (rw found at c)
  ]
  open_in-confirm idle o c = cc c
  open_in-confirm connect o c = cc c
  open_in-confirm open_confirm o c = cc c
  open_in-confirm established o c = cc c

  keepalive_in-confirm : (st : State) → s.state ≡ st → (keepalive_in st s).0.state ≢ open_confirm
  keepalive_in-confirm idle h c = cc c
  keepalive_in-confirm connect h c = cc c
  keepalive_in-confirm open_sent h c = cc c
  keepalive_in-confirm open_confirm h c = cc c
  keepalive_in-confirm established h c = cc (h, c)

  only-confirm : (st : State) → s.state ≡ st → (established_only st s).0.state ≢ open_confirm
  only-confirm idle h c = cc c
  only-confirm connect h c = cc c
  only-confirm open_sent h c = cc c
  only-confirm open_confirm h c = cc c
  only-confirm established h c = cc (h, c)

  timer-confirm : (st : State) → s.state ≡ st → (hold_timer_in st s).0.state ≢ open_confirm
  timer-confirm idle h c = cc (h, c)
  timer-confirm connect h c = cc (h, c)
  timer-confirm open_sent h c = cc (h, c)
  timer-confirm open_confirm h c = cc c
  timer-confirm established h c = cc c

  tcp-confirm : (st : State) → (tcp_established_in st s).0.state ≢ open_confirm
  tcp-confirm idle c = cc c
  tcp-confirm connect c = cc c
  tcp-confirm open_sent c = cc c
  tcp-confirm open_confirm c = cc c
  tcp-confirm established c = cc c

  open_in-established : (st : State) (o : OpenMsg) → (open_in st s o).0.state ≢ established
  open_in-established open_sent o c = elim (Option-cases (open_error s.local o)) [
    | inl none_found ↦ cc (rw none_found at c)
    | inr (subcode, found) ↦ cc (rw found at c)
  ]
  open_in-established idle o c = cc c
  open_in-established connect o c = cc c
  open_in-established open_confirm o c = cc c
  open_in-established established o c = cc c

  keepalive_in-established :
      (st : State)
      → s.state ≡ st
      → (keepalive_in st s).0.state ≡ established
      → ((st ≡ established) ⊎ (st ≡ open_confirm))
        × ((keepalive_in st s).0.negotiated_hold ≡ s.negotiated_hold)
  keepalive_in-established idle h c = cc c
  keepalive_in-established connect h c = cc c
  keepalive_in-established open_sent h c = cc c
  keepalive_in-established open_confirm h c = (inr refl, refl)
  keepalive_in-established established h c = (inl refl, refl)

  only-established :
      (st : State)
      → s.state ≡ st
      → (established_only st s).0.state ≡ established
      → (st ≡ established) × ((established_only st s).0.negotiated_hold ≡ s.negotiated_hold)
  only-established idle h c = cc c
  only-established connect h c = cc c
  only-established open_sent h c = cc c
  only-established open_confirm h c = cc c
  only-established established h c = (refl, refl)

  timer-established : (st : State) → s.state ≡ st → (hold_timer_in st s).0.state ≢ established
  timer-established idle h c = cc (h, c)
  timer-established connect h c = cc (h, c)
  timer-established open_sent h c = cc (h, c)
  timer-established open_confirm h c = cc c
  timer-established established h c = cc c

  tcp-established : (st : State) → (tcp_established_in st s).0.state ≢ established
  tcp-established idle c = cc c
  tcp-established connect c = cc c
  tcp-established open_sent c = cc c
  tcp-established open_confirm c = cc c
  tcp-established established c = cc c

-- What a step into OpenConfirm is.
pub step-confirm :
    (s : BgpFsm) (e : Event)
    → (step s e).0.state ≡ open_confirm
    → (o : OpenMsg) × (e ≡ received (open_message o))
      × (s.state ≡ open_sent)
      × (open_error s.local o ≡ none)
      × ((step s e).0.negotiated_hold ≡ negotiate s.local.hold_time o.hold_time)
unfolding step on_message on_open on_keepalive on_update on_hold_timer on_tcp_established cease
    notify_max_prefix
step-confirm s (received (open_message o)) c =
    let (waiting, clean, hold) = open_in-confirm s s.state o c in (o, refl, waiting, clean, hold)
step-confirm s (received keepalive) c = elim (keepalive_in-confirm s s.state refl c) [ ]
step-confirm s (received (update u)) c = elim (only-confirm s s.state refl c) [ ]
step-confirm s (received (refresh r)) c = elim (only-confirm s s.state refl c) [ ]
step-confirm s (received (notification n)) c = cc c
step-confirm s hold_timer c = elim (timer-confirm s s.state refl c) [ ]
step-confirm s tcp_established c = elim (tcp-confirm s s.state c) [ ]
step-confirm s started c = cc c
step-confirm s tcp_closed c = cc c
step-confirm s ceased c = cc c
step-confirm s max_prefix c = cc c

-- What a step that ends in Established is.
pub step-established :
    (s : BgpFsm) (e : Event)
    → (step s e).0.state ≡ established
    → ((s.state ≡ established) × IsQuiet e ⊎ (s.state ≡ open_confirm) × (e ≡ received keepalive))
      × ((step s e).0.negotiated_hold ≡ s.negotiated_hold)
unfolding step on_message on_open on_keepalive on_update on_hold_timer on_tcp_established cease
    notify_max_prefix
step-established s (received (open_message o)) c = elim (open_in-established s s.state o c) [ ]
step-established s (received keepalive) c =
    let (from, hold) = keepalive_in-established s s.state refl c in
    (elim from [ inl f ↦ inl (f, tt) | inr f ↦ inr (f, refl) ], hold)
step-established s (received (update u)) c =
    let (from, hold) = only-established s s.state refl c in (inl (from, tt), hold)
step-established s (received (refresh r)) c =
    let (from, hold) = only-established s s.state refl c in (inl (from, tt), hold)
step-established s (received (notification n)) c = cc c
step-established s hold_timer c = elim (timer-established s s.state refl c) [ ]
step-established s tcp_established c = elim (tcp-established s s.state c) [ ]
step-established s started c = cc c
step-established s tcp_closed c = cc c
step-established s ceased c = cc c
step-established s max_prefix c = cc c

module _ (s : BgpFsm) where
  open_in-local : (st : State) (o : OpenMsg) → (open_in st s o).0.local ≡ s.local
  open_in-local open_sent o = elim (Option-cases (open_error s.local o)) [
    | inl none_found ↦ rw none_found
    | inr (subcode, found) ↦ rw found
  ]
  open_in-local _ o = refl

  keepalive_in-local : (st : State) → (keepalive_in st s).0.local ≡ s.local
  keepalive_in-local idle = refl
  keepalive_in-local _ = refl

  only-local : (st : State) → (established_only st s).0.local ≡ s.local
  only-local idle = refl
  only-local _ = refl

  timer-local : (st : State) → (hold_timer_in st s).0.local ≡ s.local
  timer-local idle = refl
  timer-local _ = refl

  tcp-local : (st : State) → (tcp_established_in st s).0.local ≡ s.local
  tcp-local idle = refl
  tcp-local _ = refl

-- No step changes the configuration.
pub step-local : (s : BgpFsm) (e : Event) → (step s e).0.local ≡ s.local
unfolding step on_message on_open on_keepalive on_update on_hold_timer on_tcp_established cease
    notify_max_prefix
step-local s (received (open_message o)) = open_in-local s s.state o
step-local s (received keepalive) = keepalive_in-local s s.state
step-local s (received (update u)) = only-local s s.state
step-local s (received (refresh r)) = only-local s s.state
step-local s hold_timer = timer-local s s.state
step-local s tcp_established = tcp-local s s.state
step-local s _ = refl
