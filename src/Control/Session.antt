-- ===== src/Control/Session.antt =====
-- rill-core/src/control/session.rs: the registration state of a client.
pub mod Holding
use landscape_rill.Base.{ℕ, ◌==◌, Bool, List, [], ◌∷◌, if◌then◌else◌, Result, ok, err}
use landscape_rill.Control.Revoke.{RevokeList, new_list, revoke_node}

pub data SessionState : Type 0 where
  unregistered : SessionState
  registered : ℕ → SessionState
  reconnecting : ℕ → SessionState

pub data SessionEvent : Type 0 where
  register_ok : ℕ → SessionEvent
  register_failed : SessionEvent
  link_lost : SessionEvent
  challenge_ok : SessionEvent
  challenge_failed : SessionEvent
  revoked : ℕ → SessionEvent

pub data SessionError : Type 0 where
  invalid_transition : SessionError

pub record ClientSession : Type 0 where
  pub state : SessionState
  pub revoke_list : RevokeList

-- The new state of a session and the result.
abbrev pub Handled : Type 0
Handled = ClientSession × Result SessionError (Unit {0})

unfoldable pub new_session : ClientSession
new_session = record { state = unregistered; revoke_list = new_list }

unfoldable pub resume : ℕ → ClientSession → ClientSession
resume node_id s = record s { state = reconnecting node_id }

abbrev pub moved : SessionState → ClientSession → Handled
moved state s = (record s { state = state }, ok tt)

abbrev pub stay : ClientSession → Handled
stay s = (s, ok tt)

abbrev pub rejected : ClientSession → Handled
rejected s = (s, err invalid_transition)

abbrev pub noted : ℕ → ClientSession → ClientSession
noted node_id s = record s { revoke_list = revoke_node node_id s.revoke_list }

-- The arm of `Revoked` for a session that has an id.
abbrev pub on_revoked : ℕ → ℕ → ClientSession → Handled
on_revoked self_id node_id s =
    if self_id == node_id
    then (record (noted node_id s) { state = unregistered }, ok tt)
    else (noted node_id s, ok tt)

-- The `match` on the state and the event.
unfoldable pub handle_in : SessionState → SessionEvent → ClientSession → Handled
handle_in unregistered (register_ok node_id) s = moved (registered node_id) s
handle_in unregistered register_failed s = stay s
handle_in unregistered (revoked node_id) s = (noted node_id s, ok tt)
handle_in unregistered link_lost s = rejected s
handle_in unregistered challenge_ok s = rejected s
handle_in unregistered challenge_failed s = rejected s
handle_in (registered id) link_lost s = moved (reconnecting id) s
handle_in (registered id) (register_ok new_id) s = if id == new_id then stay s else rejected s
handle_in (registered id) (revoked node_id) s = on_revoked id node_id s
handle_in (registered id) register_failed s = rejected s
handle_in (registered id) challenge_ok s = rejected s
handle_in (registered id) challenge_failed s = rejected s
handle_in (reconnecting id) challenge_ok s = moved (registered id) s
handle_in (reconnecting id) challenge_failed s = stay s
handle_in (reconnecting id) (register_ok new_id) s =
    if id == new_id then moved (registered new_id) s else rejected s
handle_in (reconnecting id) (revoked node_id) s = on_revoked id node_id s
handle_in (reconnecting id) link_lost s = rejected s
handle_in (reconnecting id) register_failed s = rejected s

unfoldable pub handle : SessionEvent → ClientSession → Handled
handle ev s = handle_in s.state ev s
