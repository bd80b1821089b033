-- ===== src/Dn42/Wire/Reader.antt =====
-- `FrameReader`: messages out of a stream that comes in pieces.
pub mod Pieces
pub mod Ends
use landscape_rill.Base.{
  ℕ, zero, suc, ◌+◌, Bool, true, false, ◌||◌, not, List, [], ◌∷◌, ◌++◌, length, take, drop, ltb,
  if◌then◌else◌, Result, ok, err,
}
use landscape_rill.Dn42.Message.{Message}
use landscape_rill.Dn42.Wire.{
  header_len, max_msg_len, bad_marker, bad_length, Failure, refused, out_of_fuel, u16_at,
}
use landscape_rill.Dn42.Wire.Read.{decode, is_marked}

-- What a round of the loop of `feed` does: return, fail, or push a message of so many bytes.
pub data Round : Type 0 where
  waits : Round
  fails : Failure → Round
  takes : Message → ℕ → Round

abbrev pub decoded : Result Failure Message → ℕ → Round
decoded (ok m) len = takes m len
decoded (err e) len = fails e

unfoldable pub next_frame : List ℕ → Round
next_frame buf =
    let len = u16_at 16 buf in
    if ltb (length buf) header_len
    then waits
    else if not (is_marked buf)
    then fails (refused bad_marker)
    else if ltb len header_len || ltb max_msg_len len
    then fails (refused (bad_length len))
    else if ltb (length buf) len
    then waits
    else decoded (decode (take len buf)) len

-- The buffer that is left, the messages pushed, and the result.
pub record Fed : Type 0 where
  pub rest : List ℕ
  pub messages : List Message
  pub result : Result Failure (Unit {0})

abbrev pub pushed : Message → Fed → Fed
pushed m r = record r { messages = m ∷ r.messages }

-- A round, with what the later rounds make of the buffer behind a message.
abbrev pub round : Round → List ℕ → (List ℕ → Fed) → Fed
round waits buf later = record { rest = buf; messages = []; result = ok tt }
round (fails e) buf later = record { rest = buf; messages = []; result = err e }
round (takes m len) buf later = pushed m (later (drop len buf))

unfoldable pub feed_loop : ℕ → List ℕ → Fed
feed_loop zero buf = record { rest = buf; messages = []; result = err out_of_fuel }
feed_loop (suc f) buf = round (next_frame buf) buf (feed_loop f)

-- `feed` of a piece to the buffer that earlier pieces left; a round takes a byte at least.
unfoldable pub feed : List ℕ → List ℕ → Fed
feed buf piece = feed_loop (suc (length (buf ++ piece))) (buf ++ piece)
