-- ===== src/Dn42/Wire/Write.antt =====
-- `Message::encode` and the functions that it calls. A writer gives the bytes that it appends.
use landscape_rill.Base.{
  ℕ, ◌+◌, ◌%◌, Bool, true, ◌||◌, not, List, [], ◌∷◌, ◌++◌, length, take, any, replicate, ltb,
  if◌then◌else◌, Result, ok, err, ◌>>=◌, ◌>>◌, guard,
}
use landscape_rill.Base.Bytes.{be_bytes}
use landscape_rill.Route.Prefix.{Prefix, IpAddr, ipv4, ipv6}
use landscape_rill.Dn42.Message.{
  Capability, mp_bgp, route_refresh, four_octet_as, OpenMsg, Segment, PathAttr, origin, as_path,
  as4_path, next_hop, communities, mp_reach, mp_unreach, UpdateMsg, Message, open_message, update,
  notification, keepalive, refresh,
}
use landscape_rill.Dn42.Wire.{
  header_len, max_msg_len, as_trans, type_open, type_update, type_notification, type_keepalive,
  type_route_refresh, cap_mp_bgp, cap_route_refresh, cap_four_octet_as, as_set, as_sequence,
  WireError, bad_update, too_long, octets_of,
}

abbrev pub min : ℕ → ℕ → ℕ
min a b = if ltb b a then b else a

unfoldable pub encode_capability : Capability → List ℕ
encode_capability (mp_bgp afi safi) = cap_mp_bgp ∷ 4 ∷ (be_bytes 2 afi ++ (0 ∷ safi ∷ []))
encode_capability route_refresh = cap_route_refresh ∷ 0 ∷ []
encode_capability (four_octet_as asn) = cap_four_octet_as ∷ 4 ∷ be_bytes 4 asn

unfoldable pub encode_capabilities : List Capability → List ℕ
encode_capabilities [] = []
encode_capabilities (c ∷ cs) = encode_capability c ++ encode_capabilities cs

unfoldable pub write_nlri : Prefix → List ℕ
write_nlri p = p.len ∷ take (min (octets_of p.len) (if p.v4 then 4 else 16)) (be_bytes 16 p.bits)

unfoldable pub write_nlris : List Prefix → List ℕ
write_nlris [] = []
write_nlris (p ∷ ps) = write_nlri p ++ write_nlris ps

-- The numbers of a segment: in two bytes a larger one stands as AS_TRANS.
unfoldable pub write_asns : Bool → List ℕ → List ℕ
write_asns wide [] = []
write_asns wide (asn ∷ rest) =
    (if wide then be_bytes 4 asn else if ltb 65535 asn then be_bytes 2 as_trans else be_bytes 2 asn)
    ++ write_asns wide rest

unfoldable pub write_segment : Bool → Segment → List ℕ
write_segment wide seg =
    (if seg.is_set then as_set else as_sequence)
    ∷ (length seg.asns % 256)
    ∷ write_asns wide seg.asns

unfoldable pub write_segments : Bool → List Segment → List ℕ
write_segments wide [] = []
write_segments wide (s ∷ segs) = write_segment wide s ++ write_segments wide segs

unfoldable pub write_communities : List ℕ → List ℕ
write_communities [] = []
write_communities (c ∷ cs) = be_bytes 4 c ++ write_communities cs

abbrev pub write_hop : IpAddr → List ℕ
write_hop (ipv4 ip) = 4 ∷ be_bytes 4 ip
write_hop (ipv6 ip) = 16 ∷ be_bytes 16 ip

-- MP_REACH and MP_UNREACH carry IPv6 prefixes alone.
abbrev pub any_v4 : List Prefix → Bool
any_v4 ps = any (λ (p : Prefix). p.v4) ps

abbrev pub any_v6 : List Prefix → Bool
any_v6 ps = any (λ (p : Prefix). not p.v4) ps

-- The type, the flags and the value of an attribute.
unfoldable pub attr_value : PathAttr → Result WireError (ℕ × ℕ × List ℕ)
attr_value (origin o) = ok (1, 0x40, o ∷ [])
attr_value (as_path segs) = ok (2, 0x40, write_segments true segs)
attr_value (as4_path segs) = ok (17, 0xC0, write_segments true segs)
attr_value (next_hop ip) = ok (3, 0x40, be_bytes 4 ip)
attr_value (communities cs) = ok (8, 0x80, write_communities cs)
attr_value (mp_reach afi safi hop nlri) =
    guard (not (any_v4 nlri)) bad_update
    >> ok (14, 0x80, be_bytes 2 afi ++ (safi ∷ (write_hop hop ++ (0 ∷ write_nlris nlri))))
attr_value (mp_unreach afi safi nlri) =
    guard (not (any_v4 nlri)) bad_update
    >> ok (15, 0x80, be_bytes 2 afi ++ (safi ∷ write_nlris nlri))

-- The extended length where the value needs it.
abbrev pub attr_bytes : ℕ × ℕ × List ℕ → List ℕ
attr_bytes (ty, flags, value) =
    if ltb 255 (length value)
    then (flags + 0x10) ∷ ty ∷ (be_bytes 2 (length value) ++ value)
    else flags ∷ ty ∷ length value ∷ value

unfoldable pub write_attr : PathAttr → Result WireError (List ℕ)
write_attr a = attr_value a >>= λ v. ok (attr_bytes v)

unfoldable pub write_attrs : List PathAttr → Result WireError (List ℕ)
write_attrs [] = ok []
write_attrs (a ∷ rest) = write_attr a >>= λ b. write_attrs rest >>= λ bs. ok (b ++ bs)

-- The bytes that a message wrote behind its header, and the type or the error it ended with.
abbrev pub Body : Type 0
Body = List ℕ × Result WireError ℕ

unfoldable pub open_body : OpenMsg → Body
open_body m =
    let caps = encode_capabilities m.capabilities in
    let fixed =
      4
      ∷ (be_bytes 2 (if ltb 65535 m.as4 then as_trans else m.as4)
          ++ (be_bytes 2 m.hold_time ++ be_bytes 4 m.bgp_id)) in
    if ltb 255 (length caps)
    then (fixed, err too_long)
    else (fixed ++ (((length caps + 2) % 256) ∷ 2 ∷ length caps ∷ caps), ok type_open)

abbrev pub update_attrs : UpdateMsg → List ℕ → Result WireError (List ℕ) → Body
update_attrs m w (err e) = (be_bytes 2 (length w) ++ w, err e)
update_attrs m w (ok attrs) =
    let routes = be_bytes 2 (length w) ++ w in
    if ltb 65535 (length attrs) then (routes, err too_long) else (
      routes ++ (be_bytes 2 (length attrs) ++ (attrs ++ write_nlris m.announced)),
      ok type_update,
    )

unfoldable pub update_body : UpdateMsg → Body
update_body m =
    let w = write_nlris m.withdrawn in
    if any_v6 m.withdrawn || any_v6 m.announced
    then ([], err bad_update)
    else if ltb 65535 (length w)
    then ([], err too_long)
    else update_attrs m w (write_attrs m.attrs)

unfoldable pub encode_body : Message → Body
encode_body (open_message m) = open_body m
encode_body (update m) = update_body m
encode_body (notification m) = (m.code ∷ m.subcode ∷ m.payload, ok type_notification)
encode_body keepalive = ([], ok type_keepalive)
encode_body (refresh m) = (be_bytes 2 m.afi ++ (0 ∷ m.safi ∷ []), ok type_route_refresh)

-- A whole message: the marker, the length, the type, the body.
abbrev pub frame : ℕ → List ℕ → List ℕ
frame ty body = replicate 16 255 ++ (be_bytes 2 (header_len + length body) ++ (ty ∷ body))

-- The buffer that `encode` leaves, and its result. An error in the body leaves what was written;
-- a message that is too long is taken back.
abbrev pub sealed : List ℕ → Body → List ℕ × Result WireError (Unit {0})
sealed out (body, err e) = (out ++ (replicate header_len 255 ++ body), err e)
sealed out (body, ok ty) =
    if ltb max_msg_len (header_len + length body)
    then (out, err too_long)
    else (out ++ frame ty body, ok tt)

unfoldable pub encode : Message → List ℕ → List ℕ × Result WireError (Unit {0})
encode m out = sealed out (encode_body m)
