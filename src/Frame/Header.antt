-- ===== src/Frame/Header.antt =====
-- rill-core/src/frame/mod.rs and wire.rs: the 42 byte header. `WireHeader` is `repr(C, packed)`: its
-- fields stand one behind the other, big-endian, and the 16 bytes of the MAC behind them.
pub mod Codec
mod Examples
use landscape_rill.Base.{
  ℕ, ◌+◌, ◌*◌, ◌^◌, ◌%◌, ◌≡◌, ◌<◌, Option, none, some, List, [], ◌∷◌, ◌++◌, length, take, drop,
  get_or, set, ltb, if◌then◌else◌, Result, ok, err,
}
use landscape_rill.Base.Layout.{Fields, IsFitting, put, get}

abbrev pub header_len : ℕ
header_len = 42

abbrev pub auth_input_len : ℕ
auth_input_len = 26

abbrev pub frame_version : ℕ
frame_version = 1

abbrev pub off_ttl : ℕ
off_ttl = 3

pub data DecodeError : Type 0 where
  truncated : DecodeError

pub record MeshFrameHeader : Type 0 where
  pub version : ℕ
  pub packet_type : ℕ
  pub flags : ℕ
  pub ttl : ℕ
  pub to_node_id : ℕ
  pub from_node_id : ℕ
  pub seq : ℕ
  pub len : ℕ
  pub path_id : ℕ
  pub route_mac : List ℕ

-- The widths of the fields of `WireHeader` before its MAC.
abbrev pub wire_header : List ℕ
wire_header = 1 ∷ 1 ∷ 1 ∷ 1 ∷ 4 ∷ 4 ∷ 4 ∷ 2 ∷ 8 ∷ []

-- `From<&MeshFrameHeader> for WireHeader`, and back.
abbrev pub to_wire : MeshFrameHeader → Fields wire_header
to_wire h = (
  h.version,
  (
    h.packet_type,
    (h.flags, (h.ttl, (h.to_node_id, (h.from_node_id, (h.seq, (h.len, (h.path_id, tt))))))),
  ),
)

abbrev pub from_wire : Fields wire_header → List ℕ → MeshFrameHeader
from_wire (version, (packet_type, (flags, (ttl, (to, (from, (seq, (len, (path_id, _))))))))) mac =
    record {
      version = version;
      packet_type = packet_type;
      flags = flags;
      ttl = ttl;
      to_node_id = to;
      from_node_id = from;
      seq = seq;
      len = len;
      path_id = path_id;
      route_mac = mac;
    }

-- A header whose fields are of their Rust types.
pub record IsHeader (h : MeshFrameHeader) : Type 0 where
  pub fits : IsFitting wire_header (to_wire h)
  pub mac : length h.route_mac ≡ 16

-- The bytes of the wire header, `as_bytes`.
abbrev pub wire_bytes : MeshFrameHeader → List ℕ
wire_bytes h = put wire_header (to_wire h) ++ h.route_mac

-- `encode` into a buffer of at least 42 bytes.
unfoldable pub encode : MeshFrameHeader → List ℕ → List ℕ
encode h out = wire_bytes h ++ drop header_len out

-- `WireHeader::parse` and `From`: the header at the front of a long enough buffer.
unfoldable pub decode : List ℕ → Result DecodeError MeshFrameHeader
decode buf =
    if ltb (length buf) header_len
    then err truncated
    else ok (from_wire (get wire_header buf) (take 16 (drop 26 buf)))

unfoldable pub auth_input : MeshFrameHeader → List ℕ
auth_input h = set (take auth_input_len (wire_bytes h)) off_ttl 0

-- `wrapping_sub(1)` on the TTL of a buffer with a whole header.
unfoldable pub decrement_ttl : List ℕ → List ℕ
decrement_ttl buf =
    if ltb (length buf) header_len
    then buf
    else set buf off_ttl ((get_or buf off_ttl 0 + 255) % 256)

-- The payload by the header's length, where the bytes behind the header suffice.
abbrev pub split_payload : Result DecodeError MeshFrameHeader → List ℕ → Option (List ℕ)
split_payload (err e) rest = none
split_payload (ok h) rest = if ltb (length rest) h.len then none else some (take h.len rest)

-- `WireHeader::split` and `frame_payload`.
unfoldable pub frame_payload : List ℕ → Option (List ℕ)
frame_payload frame = split_payload (decode frame) (drop header_len frame)
