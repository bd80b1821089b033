-- ===== src/Dn42/Wire/RoundTrip/Opens.antt =====
-- An OPEN message is read back as it was written.
use native.Mathlib.Nat.{mod-eq_of_lt}
use landscape_rill.Base.{
  ℕ, suc, ◌+◌, ◌%◌, ◌^◌, ◌≡◌, ◌<◌, ◌≤◌, refl, sym, ap, ◌∙◌, true, false, List, [], ◌∷◌, ◌++◌, All,
  length, length-append, take, drop, ltb, if◌then◌else◌, ok, arith,
}
use landscape_rill.Base.Bytes.{be_bytes, be_value, be_value-be_bytes}
use landscape_rill.Base.Slices.{append-nil, drop-append_at, take-append_at, take-all}
use landscape_rill.Dn42.Message.{
  Capability, mp_bgp, route_refresh, four_octet_as, OpenMsg, open_message,
}
use landscape_rill.Dn42.Wire.{
  as_trans, cap_mp_bgp, cap_route_refresh, cap_four_octet_as, type_open, while_left, u16_at,
}
use landscape_rill.Dn42.Wire.Read.{
  is_long, capability_of, decode_tlv, all_capabilities, decode_parameter, last_as4, decode_open,
}
use landscape_rill.Dn42.Wire.Write.{encode_capability, encode_capabilities, open_body}
use landscape_rill.Dn42.Wire.RoundTrip.Loops.{
  write_all_lem, Reads, map_to, All-map, while_left-write_all,
}
use landscape_rill.Dn42.Wire.RoundTrip.Segments.{IsU32}

-- A capability whose numbers fit their fields.
abbrev pub IsCapability : Capability → Type 0
IsCapability (mp_bgp afi safi) = afi < 2 ^ 16
IsCapability route_refresh = Unit
IsCapability (four_octet_as asn) = IsU32 asn

-- The two-octet number of an OPEN.
abbrev pub two_octets : ℕ → ℕ
two_octets as4 = if ltb 65535 as4 then as_trans else as4

-- An OPEN whose parts fit their fields, and whose number is the last that it carries.
pub record IsOpen (m : OpenMsg) : Type 0 where
  pub hold : m.hold_time < 2 ^ 16
  pub id : IsU32 m.bgp_id
  pub capable : All IsCapability m.capabilities
  pub few : length (encode_capabilities m.capabilities) ≤ 253
  pub numbered : last_as4 (two_octets m.as4) m.capabilities ≡ m.as4

decode_tlv_lem :
    (t : ℕ) (v rest : List ℕ) → decode_tlv (t ∷ length v ∷ (v ++ rest)) ≡ ok ((t, v), rest)
unfolding decode_tlv
decode_tlv_lem t v rest =
    let n = length v in
    let buf = t ∷ n ∷ (v ++ rest) in
    let two : is_long 2 buf ≡ true = ground arith in
    let all : is_long (2 + n) buf ≡ true = ground (arith, length-append v rest) in
    let e : 2 + n ≡ suc (suc n) = omega arith in
    let left : drop (2 + n) buf ≡ rest = ap (λ k. drop k buf) e ∙ drop-append_at v rest n refl in
    rw (two, all, left, take-append_at v rest n refl)

abbrev tlv_of : Capability → ℕ × List ℕ
tlv_of (mp_bgp afi safi) = (cap_mp_bgp, be_bytes 2 afi ++ (0 ∷ safi ∷ []))
tlv_of route_refresh = (cap_route_refresh, [])
tlv_of (four_octet_as asn) = (cap_four_octet_as, be_bytes 4 asn)

capability-Reads : (c : Capability) → IsCapability c → Reads decode_tlv encode_capability tlv_of c
unfolding encode_capability
capability-Reads (mp_bgp afi safi) h =
    (omega arith, λ rest. decode_tlv_lem cap_mp_bgp (be_bytes 2 afi ++ (0 ∷ safi ∷ [])) rest)
capability-Reads route_refresh h = (omega arith, λ rest. decode_tlv_lem cap_route_refresh [] rest)
capability-Reads (four_octet_as asn) h =
    (omega arith, λ rest. decode_tlv_lem cap_four_octet_as (be_bytes 4 asn) rest)

capability_of_lem :
    (c : Capability) → IsCapability c → capability_of (tlv_of c).0 (tlv_of c).1 ≡ c ∷ []
capability_of_lem (mp_bgp afi safi) h = ap (λ v. mp_bgp v safi ∷ []) (be_value-be_bytes 2 afi h)
capability_of_lem route_refresh h = refl
capability_of_lem (four_octet_as asn) h = ap (λ v. four_octet_as v ∷ []) (be_value-be_bytes 4 asn h)

all_capabilities_lem :
    (cs : List Capability) → All IsCapability cs → all_capabilities (map_to tlv_of cs) ≡ cs
all_capabilities_lem [] h = refl
all_capabilities_lem (c ∷ cs) h =
    ap (λ l. l ++ all_capabilities (map_to tlv_of cs)) (capability_of_lem c h.0)
    ∙ ap (λ t. c ∷ t) (all_capabilities_lem cs h.1)

read_capabilities :
    (cs : List Capability)
    → All IsCapability cs
    → while_left decode_tlv (encode_capabilities cs) ≡ ok (map_to tlv_of cs)
unfolding encode_capabilities
read_capabilities cs h =
    ap (λ b. while_left decode_tlv b)
      (write_all_lem encode_capability encode_capabilities refl (λ c rest. refl) cs)
    ∙ while_left-write_all decode_tlv encode_capability tlv_of cs (All-map capability-Reads cs h)

-- The parameter of the capabilities.
abbrev parameter : List Capability → List ℕ
parameter cs = 2 ∷ length (encode_capabilities cs) ∷ encode_capabilities cs

decode_parameter_lem :
    (cs : List Capability)
    → All IsCapability cs
    → (rest : List ℕ) → decode_parameter (parameter cs ++ rest) ≡ ok (cs, rest)
unfolding decode_parameter
decode_parameter_lem cs h rest =
    rw (decode_tlv_lem 2 (encode_capabilities cs) rest, read_capabilities cs h)
      (ap (λ l. ok (l, rest)) (all_capabilities_lem cs h))

read_parameter :
    (cs : List Capability)
    → All IsCapability cs
    → while_left decode_parameter (parameter cs) ≡ ok (cs ∷ [])
read_parameter cs h =
    ap (λ b. while_left decode_parameter b) (sym (append-nil (parameter cs)))
    ∙ while_left-write_all decode_parameter parameter (λ (c : List Capability). c) (cs ∷ [])
        ((omega arith, decode_parameter_lem cs h), tt)

-- The bytes of an OPEN.
abbrev open_bytes : OpenMsg → List ℕ
open_bytes m =
    4
    ∷ (be_bytes 2 (two_octets m.as4)
        ++ (be_bytes 2 m.hold_time
            ++ (be_bytes 4 m.bgp_id
                ++ ((length (encode_capabilities m.capabilities) + 2) ∷ parameter m.capabilities))))

open_body_lem : (m : OpenMsg) → IsOpen m → open_body m ≡ (open_bytes m, ok type_open)
unfolding open_body
open_body_lem m is =
    let n = length (encode_capabilities m.capabilities) in
    let few : ltb 255 n ≡ false = ground (arith, is.few) in
    let count : (n + 2) % 256 ≡ n + 2 = mod-eq_of_lt (omega (arith, is.few)) in rw (few, count)

decode_open-open_bytes : (m : OpenMsg) → IsOpen m → decode_open (open_bytes m) ≡ ok (open_message m)
unfolding decode_open
decode_open-open_bytes m is =
    let caps = m.capabilities in
    let n = length (encode_capabilities caps) in
    let body = open_bytes m in
    let ten : is_long 10 body ≡ true = ground arith in
    let all : is_long (10 + (n + 2)) body ≡ true = ground arith in
    let small : two_octets m.as4 < 2 ^ 16 = ground arith in
    let number : u16_at 1 body ≡ two_octets m.as4 = be_value-be_bytes 2 (two_octets m.as4) small in
    let hold : u16_at 3 body ≡ m.hold_time = be_value-be_bytes 2 m.hold_time is.hold in
    let id : be_value (take 4 (drop 5 body)) ≡ m.bgp_id = be_value-be_bytes 4 m.bgp_id is.id in
    let params = take-all (parameter caps) (n + 2) (omega arith) in
    rw (
      ten,
      all,
      params,
      read_parameter caps is.capable,
      number,
      hold,
      id,
      append-nil caps,
      is.numbered,
    )

-- The body of an OPEN is written whole and read back.
pub decode_open-open_body :
    (m : OpenMsg)
    → IsOpen m
    → ((open_body m).1 ≡ ok type_open) × (decode_open (open_body m).0 ≡ ok (open_message m))
decode_open-open_body m is =
    let e = open_body_lem m is in
    (ap (λ b. b.1) e, ap (λ b. decode_open b.0) e ∙ decode_open-open_bytes m is)
