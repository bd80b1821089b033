-- ===== src/Probe/Examples.antt =====
-- The probe codec's theorems at concrete inputs.
use landscape_rill.Base.{ℕ, ◌≡◌, ◌≤◌, refl, some, none, List, [], ◌∷◌, arith}
use landscape_rill.Probe.{ProbePacket, ping, pong, encode_probe, parse_header, decode_probe}
use landscape_rill.Probe.Codec.{IsPacket, encode_probe-decode_probe}

-- The answer to a ping of node 7, with an address.
abbrev answer : ProbePacket
answer = pong (ping 7 9 0xdeadbeef) (b'1' ∷ b':' ∷ b'2' ∷ [])

answer-IsPacket : IsPacket answer
answer-IsPacket = record {
  fits = (omega arith, (omega arith, (omega arith, (omega arith, tt))));
  short = omega arith;
}

abbrev ping_bytes : List ℕ
ping_bytes = b'L' ∷ b'P' ∷ b'R' ∷ b'B' ∷ 1 ∷ 0 ∷ 0 ∷ 0 ∷ 7 ∷ 0 ∷ 0 ∷ 0 ∷ 9 ∷ 1 ∷ 2 ∷ 3 ∷ 4 ∷ []

ping_read : decode_probe ping_bytes ≡ some (ping 7 9 0x01020304)
unfolding decode_probe parse_header
ping_read = refl

-- Another magic is dropped.
other_magic : decode_probe (0 ∷ ping_bytes) ≡ none
unfolding decode_probe parse_header
other_magic = refl

encode_probe-decode_probe_example : (encode_probe (ping 7 9 0x01020304) ≡ ping_bytes) × (0 ≤ 128)
encode_probe-decode_probe_example =
    encode_probe-decode_probe ping_bytes (ping 7 9 0x01020304)
      (
        omega arith,
        (
          omega arith,
          (
            omega arith,
            (
              omega arith,
              (
                omega arith,
                (
                  omega arith,
                  (
                    omega arith,
                    (
                      omega arith,
                      (
                        omega arith,
                        (
                          omega arith,
                          (
                            omega arith,
                            (
                              omega arith,
                              (
                                omega arith,
                                (omega arith, (omega arith, (omega arith, (omega arith, tt)))),
                              ),
                            ),
                          ),
                        ),
                      ),
                    ),
                  ),
                ),
              ),
            ),
          ),
        ),
      )
      ping_read
