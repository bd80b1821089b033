-- ===== src/Frame/Unsealed.antt =====
-- rill-core/src/frame/mod.rs: the frames outside of a session, handshakes and path probes, and the
-- payload of a path probe. `mac key input` is `crypto::route_mac`.
pub mod RoundTrip
mod Examples
use landscape_rill.Base.{
  ℕ, ◌+◌, ◌^◌, ◌%◌, ◌==◌, Bool, true, false, Option, none, some, List, [], ◌∷◌, ◌++◌, length, take,
  drop, replicate, not, if◌then◌else◌,
}
use landscape_rill.Base.Layout.{Fields, IsFitting, put, get}
use landscape_rill.Frame.Header.{MeshFrameHeader, header_len, encode, auth_input}

abbrev pub packet_handshake : ℕ
packet_handshake = 2

abbrev pub path_id_default : ℕ
path_id_default = 0

module _ (mac : List ℕ → List ℕ → List ℕ) where
  -- The header that `build_unsealed_frame` writes.
  abbrev pub signed_plain : MeshFrameHeader → List ℕ → ℕ → MeshFrameHeader
  signed_plain header route_key len =
      let h = record header { len = len % 2 ^ 16 } in
      record h { route_mac = mac route_key (auth_input h) }

  unfoldable pub build_unsealed_frame : MeshFrameHeader → List ℕ → List ℕ → List ℕ
  build_unsealed_frame header route_key payload =
      let h = signed_plain header route_key (length payload) in
      take header_len (encode h (replicate (header_len + length payload) 0)) ++ payload

  unfoldable pub build_handshake_frame : MeshFrameHeader → List ℕ → List ℕ → List ℕ
  build_handshake_frame header key_dst payload =
      build_unsealed_frame
        (record header { path_id = path_id_default; packet_type = packet_handshake }) key_dst
        payload

pub record PathProbePayload : Type 0 where
  pub nonce : ℕ
  pub sent_ms : ℕ
  pub response : Bool

abbrev pub path_probe : List ℕ
path_probe = 4 ∷ 8 ∷ 1 ∷ []

abbrev pub flag_of : Bool → ℕ
flag_of true = 1
flag_of false = 0

unfoldable pub encode_path_probe : PathProbePayload → List ℕ
encode_path_probe p = put path_probe (p.nonce, (p.sent_ms, (flag_of p.response, tt)))

abbrev pub path_probe_of : Fields path_probe → PathProbePayload
path_probe_of (nonce, (sent_ms, (flags, _))) = record {
  nonce = nonce;
  sent_ms = sent_ms;
  response = flags % 2 == 1;
}

unfoldable pub decode_path_probe : List ℕ → Option PathProbePayload
decode_path_probe buf =
    if not (length buf == 13) then none else some (path_probe_of (get path_probe buf))
