-- ===== src/Dn42/Session/Stream.antt =====
-- What a peer reads of the actions that were queued.
use landscape_rill.Base.{
  ℕ, suc, ◌≡◌, refl, sym, ap, ◌∙◌, Bool, true, false, List, [], ◌∷◌, ◌++◌, All, length,
  if◌then◌else◌, Result, ok, err, Result-cases, inl, inr, arith,
}
use landscape_rill.Base.Slices.{append_assoc, append-nil}
use landscape_rill.Dn42.Message.{Message}
use landscape_rill.Dn42.Wire.{WireError}
use landscape_rill.Dn42.Wire.Write.{frame, encode}
use landscape_rill.Dn42.Wire.Reader.{feed_loop, feed}
use landscape_rill.Dn42.Wire.RoundTrip.Messages.{IsMessage, encode-Sent}
use landscape_rill.Dn42.Wire.RoundTrip.Streams.{
  all_read, AreRead, feed_loop-nil, feed_loop-all_read,
}
use landscape_rill.Dn42.Fsm.{Action, send, close}
use landscape_rill.Dn42.Session.{extended, queue_action, queue_actions}

abbrev is_done : Result WireError (Unit {0}) → Bool
is_done (ok _) = true
is_done (err e) = false

-- The messages of the actions that can be encoded.
unfoldable pub encodable : List Action → List Message
encodable [] = []
encodable (close ∷ acts) = encodable acts
encodable (send m ∷ acts) =
    let rest = encodable acts in if is_done (encode m []).1 then m ∷ rest else rest

abbrev pub IsSound : Action → Type 0
IsSound (send m) = IsMessage m
IsSound close = Unit

extended_done :
    (out : List ℕ) (x : List ℕ × Result WireError (Unit {0}))
    → x.1 ≡ ok tt
    → extended out x ≡ out ++ x.0
extended_done out (buf, ok _) h = refl
extended_done out (buf, err e) h = cc

extended_failed :
    (out : List ℕ) (x : List ℕ × Result WireError (Unit {0})) (e : WireError)
    → x.1 ≡ err e
    → extended out x ≡ out
extended_failed out (buf, ok _) e h = cc
extended_failed out (buf, err x) e h = refl

queue_actions-AreRead :
    (acts : List Action) (out : List ℕ)
    → All IsSound acts
    → AreRead (encodable acts) out (queue_actions acts out)
unfolding queue_actions encodable queue_action
queue_actions-AreRead [] out h = ([], sym (append-nil out), feed_loop-nil)
queue_actions-AreRead (close ∷ acts) out h = queue_actions-AreRead acts out h.1
queue_actions-AreRead (send m ∷ acts) out h = elim (Result-cases (encode m []).1) [
  | inl (u, done) ↦
      let s = encode-Sent m [] h.0 done in
      let queued : extended out (encode m []) ≡ out ++ frame s.kind s.body =
        extended_done out (encode m []) done ∙ ap (λ b. out ++ b) s.appended in
      let (bytes, appended, read) = queue_actions-AreRead acts (out ++ frame s.kind s.body) h.1 in
      let kept : encodable (send m ∷ acts) ≡ m ∷ encodable acts =
        ap (λ r. if is_done r then m ∷ encodable acts else encodable acts) done in
      (
        frame s.kind s.body ++ bytes,
        ap (queue_actions acts) queued ∙ appended ∙ append_assoc out (frame s.kind s.body) bytes,
        λ f l.
            feed_loop-all_read s.kind s.body bytes m (encodable acts) s.short s.read read f l
            ∙ ap all_read (sym kept),
      )
  | inr (e, failed) ↦
      let (bytes, appended, read) = queue_actions-AreRead acts out h.1 in
      let skipped : encodable (send m ∷ acts) ≡ encodable acts =
        ap (λ r. if is_done r then m ∷ encodable acts else encodable acts) failed in
      (
        bytes,
        ap (queue_actions acts) (extended_failed out (encode m []) e failed) ∙ appended,
        λ f l. read f l ∙ ap all_read (sym skipped),
      )
]

-- A peer reads the messages of the queued actions that can be encoded, in order, and nothing else:
-- a message that cannot leaves no byte behind.
pub feed-queue_actions :
    (acts : List Action)
    → All IsSound acts
    → feed [] (queue_actions acts []) ≡ all_read (encodable acts)
unfolding feed
feed-queue_actions acts h =
    let (bytes, appended, read) = queue_actions-AreRead acts [] h in
    ap (λ b. feed_loop (suc (length b)) b) appended ∙ read (suc (length bytes)) (omega arith)
