-- ===== src/Probe/Codec.antt =====
-- What the decoder of probe packets accepts.
use landscape_rill.Base.{
  ℕ, ◌≡◌, ◌≤◌, sym, ap, ◌∙◌, inl, inr, false, not, ◌||◌, some, List, ◌++◌, length, take, drop,
  take-append-drop, All, ltb, Bool-cases, arith, length-drop,
}
use mathlib.Core.Path.{subst}
use landscape_rill.Base.Slices.{drop-add, drop-All}
use landscape_rill.Base.Bytes.{IsByte}
use landscape_rill.Base.Layout.{IsFitting, put, get, get-put, put-get}
use landscape_rill.Base.Text.{text_eq, text_eq_iff}
use landscape_rill.Probe.{
  ProbePacket, probe_magic, probe_header, probe_header_len, probe_payload_max, packet_fields,
  from_fields, encode_probe, parse_header, with_payload, decode_probe,
}

-- A packet whose fields are of their Rust types, with a payload that is not too long.
pub record IsPacket (p : ProbePacket) : Type 0 where
  pub fits : IsFitting probe_header (packet_fields p)
  pub short : length p.payload ≤ 128

-- A packet with a payload of at most 128 bytes is read back.
pub decode_probe-encode_probe :
    (p : ProbePacket) → IsPacket p → decode_probe (encode_probe p) ≡ some p
unfolding decode_probe encode_probe parse_header
decode_probe-encode_probe p i =
    let fields = get-put probe_header (packet_fields p) p.payload i.fits in
    let short : ltb probe_payload_max (length p.payload) ≡ false =
      let s = i.short in ground arith in
    let long : (ltb (length (encode_probe p)) probe_header_len || false) ≡ false = ground arith in
    let parsed : parse_header (encode_probe p) ≡ some (packet_fields p) =
      rw long (ap some fields) in
    ap (λ h. with_payload h p.payload) parsed ∙ rw short

-- Bytes that are read as a packet are its encoding: no two byte strings are read as the same packet.
pub encode_probe-decode_probe :
    (buf : List ℕ) (p : ProbePacket)
    → All IsByte buf
    → decode_probe buf ≡ some p
    → (encode_probe p ≡ buf) × (length p.payload ≤ 128)
unfolding decode_probe encode_probe parse_header
encode_probe-decode_probe buf p b e =
    elim (Bool-cases
      (ltb (length buf) probe_header_len || not (text_eq (take 4 buf) probe_magic))) [
        | inl bad ↦ cc (rw bad at e)
        | inr good ↦
            let long : 17 ≤ length buf = ground arith in
            let magic : take 4 buf ≡ probe_magic =
              (text_eq_iff (take 4 buf) probe_magic).0 (ground arith) in
            let payload = drop probe_header_len buf in
            let fields = get probe_header (drop 4 buf) in
            let found : with_payload (some fields) payload ≡ some p =
              ap (λ h. with_payload h payload) (sym (parsed good)) ∙ e in
            elim (Bool-cases (ltb probe_payload_max (length payload))) [
              | inl over ↦ cc (rw over at found)
              | inr fits ↦
                  let same : from_fields fields payload ≡ p = cc (rw fits at found) in
                  let kept : put probe_header fields ≡ take 13 (drop 4 buf) =
                    put-get probe_header (drop 4 buf) (drop-All IsByte 4 buf b)
                      (omega (arith, length-drop 4 buf, long)) in
                  (
                    ap (λ (q : ProbePacket). encode_probe q) (sym same)
                        ∙ ap (λ (f : List ℕ). probe_magic ++ (f ++ payload)) kept
                        ∙ ap (λ (m : List ℕ). m ++ (take 13 (drop 4 buf) ++ payload)) (sym magic)
                        ∙ ap (λ (t : List ℕ). take 4 buf ++ (take 13 (drop 4 buf) ++ t))
                            (drop-add 4 13 buf)
                        ∙ ap (λ (t : List ℕ). take 4 buf ++ t) (take-append-drop 13 (drop 4 buf))
                        ∙ take-append-drop 4 buf,
                    subst (λ (q : ProbePacket). length q.payload ≤ 128) same (ground arith),
                  )
            ]
      ]
  where
    parsed :
        (ltb (length buf) probe_header_len || not (text_eq (take 4 buf) probe_magic)) ≡ false
        → parse_header buf ≡ some (get probe_header (drop 4 buf))
    parsed good = rw good
