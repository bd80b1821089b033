-- ===== src/Dn42/Fsm/Trace.antt =====
-- How a session comes up and how it ends, over every sequence of events.
use landscape_rill.Base.{◌≡◌, refl, sym, ap, ◌∙◌, inl, inr, List, [], ◌∷◌, ◌++◌, All}
use landscape_rill.Dn42.Message.{OpenMsg, open_message, keepalive}
use landscape_rill.Dn42.Fsm.{
  LocalConfig, open_sent, open_confirm, established, new_fsm, Event, received, behind, negotiate,
  open_error,
}
use landscape_rill.Dn42.Fsm.Open.{IsAcceptable, open_error_iff}
use landscape_rill.Dn42.Fsm.Steps.{IsQuiet, step-confirm, step-established, step-local}

behind-local : (local : LocalConfig) (events : List Event) → (behind local events).local ≡ local
unfolding behind new_fsm
behind-local local [] = refl
behind-local local (e ∷ rest) = step-local (behind local rest) e ∙ behind-local local rest

-- Where the machine is in `OpenConfirm`, the last event was an OPEN that is acceptable to the
-- configuration, in `OpenSent`, and the hold time is the one that this OPEN agreed on.
pub behind-confirm :
    (local : LocalConfig) (events : List Event)
    → (behind local events).state ≡ open_confirm
    → (o : OpenMsg) × (older : List Event) × (events ≡ received (open_message o) ∷ older)
      × ((behind local older).state ≡ open_sent)
      × IsAcceptable local o
      × ((behind local events).negotiated_hold ≡ negotiate local.hold_time o.hold_time)
unfolding behind new_fsm
behind-confirm local [] c = cc c
behind-confirm local (e ∷ older) c =
    let (o, is_open, waiting, clean, hold) = step-confirm (behind local older) e c in
    let mine = behind-local local older in
    (
      o,
      older,
      ap (λ e. e ∷ older) is_open,
      waiting,
      (open_error_iff local o).0 (ap (λ l. open_error l o) (sym mine) ∙ clean),
      hold ∙ ap (λ (l : LocalConfig). negotiate l.hold_time o.hold_time) mine,
    )

-- Where the machine is Established, the last events were an OPEN that is acceptable to the
-- configuration, in `OpenSent`, a KEEPALIVE right behind it, and since then nothing but KEEPALIVE,
-- UPDATE and ROUTE-REFRESH messages; the hold time is the one that this OPEN agreed on.
pub behind-established :
    (local : LocalConfig) (events : List Event)
    → (behind local events).state ≡ established
    → (quiet : List Event) × (o : OpenMsg) × (older : List Event) × (events
        ≡ quiet ++ (received keepalive ∷ received (open_message o) ∷ older))
      × All IsQuiet quiet
      × ((behind local older).state ≡ open_sent)
      × IsAcceptable local o
      × ((behind local events).negotiated_hold ≡ negotiate local.hold_time o.hold_time)
unfolding behind new_fsm
behind-established local [] c = cc c
behind-established local (e ∷ older) c =
    let (from, hold) = step-established (behind local older) e c in
    elim from [
      | inl (up, calm) ↦
          let (quiet, o, oldest, split, calms, waiting, good, agreed) =
            behind-established local older up in
          (
            e ∷ quiet,
            o,
            oldest,
            ap (λ es. e ∷ es) split,
            (calm, calms),
            waiting,
            good,
            hold ∙ agreed,
          )
      | inr (confirm, is_keepalive) ↦
          let (o, oldest, split, waiting, good, agreed) = behind-confirm local older confirm in
          ([], o, oldest, cc (split, is_keepalive), tt, waiting, good, hold ∙ agreed)
    ]
