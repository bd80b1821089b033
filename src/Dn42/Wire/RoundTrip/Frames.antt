-- ===== src/Dn42/Wire/RoundTrip/Frames.antt =====
-- A frame is opened to its body.
use landscape_rill.Base.{ℕ, ◌+◌, ◌^◌, ◌≡◌, ◌<◌, ◌==◌, true, List, length, arith}
use landscape_rill.Base.Bytes.{be_value-be_bytes}
use landscape_rill.Dn42.Wire.{u16_at}
use landscape_rill.Dn42.Wire.Read.{is_long, decode_body, decode}
use landscape_rill.Dn42.Wire.Write.{frame}

pub decode-frame :
    (ty : ℕ) (body : List ℕ)
    → 19 + length body < 2 ^ 16
    → decode (frame ty body) ≡ decode_body ty body
unfolding decode
decode-frame ty body h =
    let size : u16_at 16 (frame ty body) ≡ 19 + length body =
      be_value-be_bytes 2 (19 + length body) h in
    let whole : (u16_at 16 (frame ty body) == length (frame ty body)) ≡ true = ground arith in
    let long : is_long 19 (frame ty body) ≡ true = ground arith in rw (long, whole)
