-- ===== src/Probe.antt =====
-- rill-core/src/probe.rs: the probe packet, outside of the mesh frame. The magic and the packed
-- header stand in front of the payload.
pub mod Codec
mod Examples
use landscape_rill.Base.{
  ℕ, Option, none, some, List, [], ◌∷◌, ◌++◌, length, take, drop, ltb, ◌||◌, not, if◌then◌else◌,
}
use landscape_rill.Base.Layout.{Fields, IsFitting, put, get}
use landscape_rill.Base.Text.{text_eq}

abbrev pub probe_magic : List ℕ
probe_magic = b'L' ∷ b'P' ∷ b'R' ∷ b'B' ∷ []

abbrev pub probe_header_len : ℕ
probe_header_len = 17

abbrev pub probe_payload_max : ℕ
probe_payload_max = 128

abbrev pub probe_ping : ℕ
probe_ping = 1

abbrev pub probe_pong : ℕ
probe_pong = 2

-- The widths of `ProbeHeader` behind the magic: type, from, to, nonce.
abbrev pub probe_header : List ℕ
probe_header = 1 ∷ 4 ∷ 4 ∷ 4 ∷ []

pub record ProbePacket : Type 0 where
  pub packet_type : ℕ
  pub from_node_id : ℕ
  pub to_node_id : ℕ
  pub nonce : ℕ
  pub payload : List ℕ

abbrev pub ping : ℕ → ℕ → ℕ → ProbePacket
ping from to nonce = record {
  packet_type = probe_ping;
  from_node_id = from;
  to_node_id = to;
  nonce = nonce;
  payload = [];
}

-- The answer to a ping.
abbrev pub pong : ProbePacket → List ℕ → ProbePacket
pong p payload = record {
  packet_type = probe_pong;
  from_node_id = p.to_node_id;
  to_node_id = p.from_node_id;
  nonce = p.nonce;
  payload = payload;
}

abbrev pub packet_fields : ProbePacket → Fields probe_header
packet_fields p = (p.packet_type, (p.from_node_id, (p.to_node_id, (p.nonce, tt))))

abbrev pub from_fields : Fields probe_header → List ℕ → ProbePacket
from_fields (packet_type, (from, (to, (nonce, _)))) payload = record {
  packet_type = packet_type;
  from_node_id = from;
  to_node_id = to;
  nonce = nonce;
  payload = payload;
}

unfoldable pub encode_probe : ProbePacket → List ℕ
encode_probe p = probe_magic ++ (put probe_header (packet_fields p) ++ p.payload)

-- `parse_header`: the fields behind the right magic.
unfoldable pub parse_header : List ℕ → Option (Fields probe_header)
parse_header buf =
    if ltb (length buf) probe_header_len || not (text_eq (take 4 buf) probe_magic)
    then none
    else some (get probe_header (drop 4 buf))

abbrev pub with_payload : Option (Fields probe_header) → List ℕ → Option ProbePacket
with_payload none payload = none
with_payload (some h) payload =
    if ltb probe_payload_max (length payload) then none else some (from_fields h payload)

unfoldable pub decode_probe : List ℕ → Option ProbePacket
decode_probe buf = with_payload (parse_header buf) (drop probe_header_len buf)
