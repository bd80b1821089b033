-- ===== src/Control/Session/Holding.antt =====
-- How a session comes to lose its id.
use mathlib.Core.Path.{subst}
use landscape_rill.Base.{
  ℕ, ◌≡◌, refl, sym, ap, ◌∙◌, ◌==◌, ==_iff, Option, none, some, List, [], ◌∷◌, In, if◌then◌else◌,
  Bool-cases, ◌⊎◌, inl, inr,
}
use landscape_rill.Control.Session.{
  SessionState, unregistered, registered, reconnecting, SessionEvent, register_ok, register_failed,
  link_lost, challenge_ok, challenge_failed, revoked, ClientSession, moved, stay, rejected,
  on_revoked, handle_in, handle,
}

abbrev pub holder : SessionState → Option ℕ
holder unregistered = none
holder (registered id) = some id
holder (reconnecting id) = some id

-- The session behind events; an error leaves it in use.
abbrev pub behind : List SessionEvent → ClientSession → ClientSession
behind [] s = s
behind (ev ∷ evs) s = behind evs (handle ev s).0

-- The session holds the id, or this event revokes it.
abbrev Holds : ℕ → SessionEvent → ClientSession → Type 0
Holds self ev s = (holder s.state ≡ some self) ⊎ (ev ≡ revoked self)

on_revoked-Holds :
    (self node_id : ℕ) (s : ClientSession)
    → holder s.state ≡ some self
    → Holds self (revoked node_id) (on_revoked self node_id s).0
on_revoked-Holds self node_id s h = elim (Bool-cases (self == node_id)) [
  | inl same ↦ inr (ap revoked (sym ((==_iff self node_id).0 same)))
  | inr other ↦
      let kept : (on_revoked self node_id s).0.state ≡ s.state = rw other in
      inl (ap holder kept ∙ h)
]

registered-Holds :
    (self new_id : ℕ) (s : ClientSession)
    → holder s.state ≡ some self
    → Holds self (register_ok new_id) (if self == new_id then stay s else rejected s).0
registered-Holds self new_id s h = elim (Bool-cases (self == new_id)) [
  | inl same ↦ inl (rw same h)
  | inr other ↦ inl (rw other h)
]

reconnected-Holds :
    (self new_id : ℕ) (s : ClientSession)
    → holder s.state ≡ some self
    → Holds self
        (register_ok new_id)
        (if self == new_id then moved (registered new_id) s else rejected s).0
reconnected-Holds self new_id s h = elim (Bool-cases (self == new_id)) [
  | inl same ↦ inl (rw same (ap some (sym ((==_iff self new_id).0 same))))
  | inr other ↦ inl (rw other h)
]

handle_in-Holds :
    (st : SessionState) (ev : SessionEvent) (s : ClientSession) (self : ℕ)
    → s.state ≡ st
    → holder st ≡ some self
    → Holds self ev (handle_in st ev s).0
unfolding handle_in
handle_in-Holds unregistered ev s self e h = cc
handle_in-Holds (registered id) link_lost s self e h = inl h
handle_in-Holds (registered id) (register_ok new_id) s self e h =
    let same : id ≡ self = cc in
    subst (λ n. Holds self (register_ok new_id) (if n == new_id then stay s else rejected s).0)
      (sym same) (registered-Holds self new_id s (ap holder e ∙ h))
handle_in-Holds (registered id) (revoked node_id) s self e h =
    let same : id ≡ self = cc in
    subst (λ n. Holds self (revoked node_id) (on_revoked n node_id s).0) (sym same)
      (on_revoked-Holds self node_id s (ap holder e ∙ h))
handle_in-Holds (registered id) register_failed s self e h = inl (ap holder e ∙ h)
handle_in-Holds (registered id) challenge_ok s self e h = inl (ap holder e ∙ h)
handle_in-Holds (registered id) challenge_failed s self e h = inl (ap holder e ∙ h)
handle_in-Holds (reconnecting id) challenge_ok s self e h = inl h
handle_in-Holds (reconnecting id) challenge_failed s self e h = inl (ap holder e ∙ h)
handle_in-Holds (reconnecting id) (register_ok new_id) s self e h =
    let same : id ≡ self = cc in
    subst
      (λ n.
        Holds self (register_ok new_id)
          (if n == new_id then moved (registered new_id) s else rejected s).0)
      (sym same) (reconnected-Holds self new_id s (ap holder e ∙ h))
handle_in-Holds (reconnecting id) (revoked node_id) s self e h =
    let same : id ≡ self = cc in
    subst (λ n. Holds self (revoked node_id) (on_revoked n node_id s).0) (sym same)
      (on_revoked-Holds self node_id s (ap holder e ∙ h))
handle_in-Holds (reconnecting id) link_lost s self e h = inl (ap holder e ∙ h)
handle_in-Holds (reconnecting id) register_failed s self e h = inl (ap holder e ∙ h)

-- A session that has an id still has it behind any events, the refused ones included, unless one of
-- them revokes this id.
pub behind-holder :
    (evs : List SessionEvent) (s : ClientSession) (self : ℕ)
    → holder s.state ≡ some self
    → (holder (behind evs s).state ≡ some self) ⊎ In (revoked self) evs
unfolding handle
behind-holder [] s self h = inl h
behind-holder (ev ∷ evs) s self h = elim (handle_in-Holds s.state ev s self refl h) [
  | inr lost ↦ inr (inl (sym lost))
  | inl kept ↦ elim (behind-holder evs (handle ev s).0 self kept) [
    | inl still ↦ inl still
    | inr i ↦ inr (inr i)
  ]
]
