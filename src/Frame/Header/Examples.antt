-- ===== src/Frame/Header/Examples.antt =====
-- The header's theorems at concrete inputs.
use landscape_rill.Base.{ℕ, ◌<◌, ◌≡◌, refl, ◌↔◌, [], replicate, ok, arith}
use landscape_rill.Frame.Header.{MeshFrameHeader, IsHeader, encode, decode, auth_input}
use landscape_rill.Frame.Header.Codec.{auth_input-eq_iff}

abbrev sample_header : MeshFrameHeader
sample_header = record {
  version = 1;
  packet_type = 1;
  flags = 0;
  ttl = 64;
  to_node_id = 2;
  from_node_id = 1;
  seq = 7;
  len = 300;
  path_id = 0;
  route_mac = replicate 16 171;
}

-- The same frame one hop further.
abbrev next_hop_header : MeshFrameHeader
next_hop_header = record sample_header { ttl = 63 }

fitting : (t : ℕ) → t < 256 → IsHeader (record sample_header { ttl = t })
fitting t h = record {
  fits = (
    omega arith,
    (
      omega arith,
      (
        omega arith,
        (h, (omega arith, (omega arith, (omega arith, (omega arith, (omega arith, tt)))))),
      ),
    ),
  );
  mac = refl;
}

sample_read : decode (encode sample_header []) ≡ ok sample_header
unfolding decode encode
sample_read = refl

auth_input-eq_iff_example : (auth_input sample_header ≡ auth_input next_hop_header) ↔ (
    record sample_header { ttl = 0; route_mac = [] }
    ≡ record next_hop_header { ttl = 0; route_mac = [] })
auth_input-eq_iff_example =
    auth_input-eq_iff sample_header next_hop_header (fitting 64 (omega arith))
      (fitting 63 (omega arith))
