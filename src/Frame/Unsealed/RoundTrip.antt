-- ===== src/Frame/Unsealed/RoundTrip.antt =====
-- What is read of an unsealed frame and of a path probe.
use landscape_rill.Base.{
  ℕ, ◌+◌, ◌^◌, ◌%◌, ◌≡◌, ◌<◌, refl, ap, ◌∙◌, ◌==◌, Bool, true, false, some, List, [], ◌++◌, length,
  drop, replicate, ltb, ok, arith,
}
use landscape_rill.Base.Slices.{take-append_at, drop-append_at, take-all}
use landscape_rill.Base.Layout.{Fields, get-put}
use landscape_rill.Frame.Header.{
  MeshFrameHeader, IsHeader, header_len, wire_bytes, encode, decode, auth_input, frame_payload,
  split_payload,
}
use landscape_rill.Frame.Header.Codec.{framed, decode-framed, length-wire_bytes}
use landscape_rill.Frame.Unsealed.{
  signed_plain, build_unsealed_frame, PathProbePayload, path_probe, path_probe_of, flag_of,
  encode_path_probe, decode_path_probe,
}

module _ (mac : List ℕ → List ℕ → List ℕ)
    (mac_sized : (key input : List ℕ) → length (mac key input) ≡ 16) (header : MeshFrameHeader)
    (route_key payload : List ℕ) where
  abbrev plain : MeshFrameHeader
  plain = signed_plain mac header route_key (length payload)

  plain-IsHeader : IsHeader header → IsHeader plain
  plain-IsHeader i =
      let (v, (p, (f, (t, (to, (from, (s, (l, rest)))))))) = i.fits in
      record {
        fits = (v, (p, (f, (t, (to, (from, (s, (omega arith, rest))))))));
        mac = mac_sized _ _;
      }

  build_unsealed_frame-framed :
      IsHeader header → build_unsealed_frame mac header route_key payload ≡ framed plain payload
  unfolding build_unsealed_frame encode
  build_unsealed_frame-framed i =
      let zeros = drop header_len (replicate (header_len + length payload) 0) in
      ap (λ (w : List ℕ). w ++ payload)
        (take-append_at (wire_bytes plain) zeros 42 (length-wire_bytes plain (plain-IsHeader i)))

-- A frame of a session-less packet carries the given header, but for the length and the MAC, which
-- is that of the header's MAC input under the key; its payload is the given one, where it is
-- shorter than 2 ^ 16 bytes.
pub decode-build_unsealed_frame :
    (mac : List ℕ → List ℕ → List ℕ) (header : MeshFrameHeader) (route_key payload : List ℕ)
    → ((key input : List ℕ) → length (mac key input) ≡ 16)
    → IsHeader header
    → length payload < 2 ^ 16
    → let frame = build_unsealed_frame mac header route_key payload in
      let h = record header { len = length payload } in
      (decode frame ≡ ok (record h { route_mac = mac route_key (auth_input h) }))
      × (frame_payload frame ≡ some payload)
unfolding frame_payload
decode-build_unsealed_frame mac header route_key payload sized i short =
    let made = build_unsealed_frame-framed mac sized header route_key payload i in
    let h = plain mac sized header route_key payload in
    let good : IsHeader h = plain-IsHeader mac sized header route_key payload i in
    let same : length payload % 2 ^ 16 ≡ length payload = omega (arith, short) in
    let read = decode-framed h payload good in
    let rest : drop header_len (framed h payload) ≡ payload =
      drop-append_at (wire_bytes h) payload 42 (length-wire_bytes h good) in
    let enough : ltb (length payload) h.len ≡ false = ground arith in
    (
      ap decode made
          ∙ read
          ∙ ap
              (λ (n : ℕ). ok (record header {
                len = n;
                route_mac = mac route_key (auth_input (record header { len = n }));
              }))
              same,
      ap (λ (f : List ℕ). split_payload (decode f) (drop header_len f)) made
          ∙ ap (λ d. split_payload d (drop header_len (framed h payload))) read
          ∙ ap (λ (r : List ℕ). split_payload (ok h) r) rest
          ∙ rw enough (ap (λ (l : List ℕ). some l) (take-all payload h.len (omega (arith, same)))),
    )

flag_of-odd : (b : Bool) → (flag_of b % 2 == 1) ≡ b
flag_of-odd true = refl
flag_of-odd false = refl

flag_of-lt : (b : Bool) → flag_of b < 256
flag_of-lt true = omega arith
flag_of-lt false = omega arith

-- A path probe is read back.
pub decode_path_probe-encode_path_probe :
    (p : PathProbePayload)
    → p.nonce < 2 ^ 32
    → p.sent_ms < 2 ^ 64
    → decode_path_probe (encode_path_probe p) ≡ some p
unfolding decode_path_probe encode_path_probe
decode_path_probe-encode_path_probe p n s =
    let fields =
      get-put path_probe (p.nonce, (p.sent_ms, (flag_of p.response, tt))) []
        (n, (s, (flag_of-lt p.response, tt))) in
    ap (λ (f : Fields path_probe). some (path_probe_of f)) fields
    ∙ ap (λ (b : Bool). some (record p { response = b })) (flag_of-odd p.response)
