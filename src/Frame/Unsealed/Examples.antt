-- ===== src/Frame/Unsealed/Examples.antt =====
-- The theorems on unsealed frames at concrete inputs.
use landscape_rill.Base.{ℕ, refl, true, List, [], ◌∷◌, ◌++◌, take, replicate, arith}
use landscape_rill.Base.Bytes.{be_value}
use landscape_rill.Frame.Header.{MeshFrameHeader, IsHeader}
use landscape_rill.Frame.Unsealed.{PathProbePayload}

-- A MAC of the key's and the input's first bytes.
abbrev plain_mac : List ℕ → List ℕ → List ℕ
plain_mac key input = replicate 8 (be_value (take 1 key)) ++ replicate 8 (be_value (take 1 input))

abbrev probe_frame_header : MeshFrameHeader
probe_frame_header = record {
  version = 1;
  packet_type = 5;
  flags = 0;
  ttl = 64;
  to_node_id = 2;
  from_node_id = 1;
  seq = 0;
  len = 0;
  path_id = 77;
  route_mac = replicate 16 0;
}

probe_frame_header-IsHeader : IsHeader probe_frame_header
probe_frame_header-IsHeader = record {
  fits = (
    omega arith,
    (
      omega arith,
      (
        omega arith,
        (
          omega arith,
          (omega arith, (omega arith, (omega arith, (omega arith, (omega arith, tt))))),
        ),
      ),
    ),
  );
  mac = refl;
}

abbrev path_ping : PathProbePayload
path_ping = record { nonce = 99; sent_ms = 1700000000000; response = true }

abbrev route_key : List ℕ
route_key = 5 ∷ []

abbrev probe_payload : List ℕ
probe_payload = replicate 13 1
