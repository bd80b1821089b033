-- ===== src/Dn42/Wire/RoundTrip/Streams.antt =====
-- Messages sent one behind the other come out of a `FrameReader`.
use landscape_rill.Base.{
  ℕ, zero, suc, ◌+◌, ◌≡◌, ◌<◌, ◌≤◌, refl, sym, ap, ◌∙◌, false, ◌||◌, List, [], ◌∷◌, ◌++◌, All,
  length, length-append, ltb, Result, ok, err, arith,
}
use landscape_rill.Base.Bytes.{be_value-be_bytes}
use landscape_rill.Base.Slices.{append_assoc, append-nil, drop-append_at, take-append_at}
use landscape_rill.Dn42.Message.{Message}
use landscape_rill.Dn42.Wire.{WireError, header_len, max_msg_len, u16_at}
use landscape_rill.Dn42.Wire.Read.{decode}
use landscape_rill.Dn42.Wire.Write.{frame, encode}
use landscape_rill.Dn42.Wire.Reader.{takes, next_frame, Fed, pushed, round, feed_loop, feed}
use landscape_rill.Dn42.Wire.RoundTrip.Loops.{map_to}
use landscape_rill.Dn42.Wire.RoundTrip.Messages.{IsMessage, arrival, encode-Sent}

abbrev behind :
    List ℕ × Result WireError (Unit {0})
    → (List ℕ → List ℕ × Result WireError (Unit {0}))
    → List ℕ × Result WireError (Unit {0})
behind (out, ok _) next = next out
behind (out, err e) next = (out, err e)

-- The messages encoded into one buffer in turn, up to the first error.
unfoldable pub encode_all : List Message → List ℕ → List ℕ × Result WireError (Unit {0})
encode_all [] out = (out, ok tt)
encode_all (m ∷ ms) out = behind (encode m out) (encode_all ms)

-- All of these messages, and nothing left.
abbrev pub all_read : List Message → Fed
all_read ms = record { rest = []; messages = map_to arrival ms; result = ok tt }

next_frame-frame :
    (ty : ℕ) (body rest : List ℕ) (m : Message)
    → 19 + length body ≤ 4096
    → decode (frame ty body) ≡ ok m
    → next_frame (frame ty body ++ rest) ≡ takes m (19 + length body)
unfolding next_frame
next_frame-frame ty body rest m short read =
    let n = 19 + length body in
    let buf = frame ty body ++ rest in
    let size : u16_at 16 buf ≡ n = be_value-be_bytes 2 n (omega (arith, short)) in
    let l = length-append body rest in
    let long : ltb (length buf) header_len ≡ false = ground arith in
    let few : ltb n header_len || ltb max_msg_len n ≡ false = ground (arith, short) in
    let whole : ltb (length buf) n ≡ false = ground (arith, l) in
    let total : length (frame ty body) ≡ n = omega arith in
    rw (size, long, few, whole, take-append_at (frame ty body) rest n total, read)

feed_loop-frame :
    (f ty : ℕ) (body rest : List ℕ) (m : Message)
    → 19 + length body ≤ 4096
    → decode (frame ty body) ≡ ok m
    → feed_loop (suc f) (frame ty body ++ rest) ≡ pushed m (feed_loop f rest)
unfolding feed_loop
feed_loop-frame f ty body rest m short read =
    ap (λ r. round r (frame ty body ++ rest) (feed_loop f))
      (next_frame-frame ty body rest m short read)
    ∙ ap (λ b. pushed m (feed_loop f b))
        (drop-append_at (frame ty body) rest (19 + length body) (omega arith))

-- What a loop with enough fuel makes of the bytes.
abbrev pub AreRead : List Message → List ℕ → List ℕ → Type 0
AreRead ms out buf =
    (bytes : List ℕ) × (buf ≡ out ++ bytes)
    × ((f : ℕ) → length bytes < f → feed_loop f bytes ≡ all_read ms)

pub feed_loop-nil : (f : ℕ) → 0 < f → feed_loop f [] ≡ all_read []
unfolding feed_loop next_frame
feed_loop-nil zero h = ground arith
feed_loop-nil (suc f) h = refl

pub feed_loop-all_read :
    (ty : ℕ) (body bytes : List ℕ) (m : Message) (ms : List Message)
    → 19 + length body ≤ 4096
    → decode (frame ty body) ≡ ok (arrival m)
    → ((f : ℕ) → length bytes < f → feed_loop f bytes ≡ all_read ms)
    → (f : ℕ) → length (frame ty body ++ bytes) < f
    → feed_loop f (frame ty body ++ bytes) ≡ all_read (m ∷ ms)
feed_loop-all_read ty body bytes m ms short read later zero h = ground arith
feed_loop-all_read ty body bytes m ms short read later (suc f) h =
    let l = length-append body bytes in
    feed_loop-frame f ty body bytes (arrival m) short read
    ∙ ap (λ (r : Fed). pushed (arrival m) r) (later f (omega (arith, h, l)))

behind_ok :
    (x : List ℕ × Result WireError (Unit {0}))
    (next : List ℕ → List ℕ × Result WireError (Unit {0}))
    → (behind x next).1 ≡ ok tt
    → (x.1 ≡ ok tt) × (behind x next ≡ next x.0)
behind_ok (o, ok _) next h = (refl, refl)
behind_ok (o, err e) next h = cc

encode_all-AreRead :
    (ms : List Message) (out : List ℕ)
    → All IsMessage ms
    → (encode_all ms out).1 ≡ ok tt
    → AreRead ms out (encode_all ms out).0
unfolding encode_all
encode_all-AreRead [] out is h = ([], sym (append-nil out), feed_loop-nil)
encode_all-AreRead (m ∷ ms) out is h =
    let (done, next) = behind_ok (encode m out) (encode_all ms) h in
    let s = encode-Sent m out is.0 done in
    let (bytes, appended, read) =
      encode_all-AreRead ms (encode m out).0 is.1 (sym (ap (λ x. x.1) next) ∙ h) in
    (
      frame s.kind s.body ++ bytes,
      ap (λ x. x.0) next
          ∙ appended
          ∙ ap (λ o. o ++ bytes) s.appended
          ∙ append_assoc out (frame s.kind s.body) bytes,
      feed_loop-all_read s.kind s.body bytes m ms s.short s.read read,
    )

-- A stream of messages whose parts fit their fields, each encoded behind the other into a buffer, is
-- read whole: the reader pushes these messages in order and keeps no byte.
pub feed-encode_all :
    (ms : List Message)
    → All IsMessage ms
    → (encode_all ms []).1 ≡ ok tt
    → feed [] (encode_all ms []).0 ≡ all_read ms
unfolding feed
feed-encode_all ms is h =
    let (bytes, appended, read) = encode_all-AreRead ms [] is h in
    ap (λ b. feed_loop (suc (length b)) b) appended ∙ read (suc (length bytes)) (omega arith)
