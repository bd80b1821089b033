-- ===== src/Dn42/Wire/Read.antt =====
-- `decode` and the functions that it calls.
pub mod Ends
use landscape_rill.Base.{
  ℕ, ◌+◌, ◌-◌, ◌*◌, ◌/◌, ◌%◌, ◌^◌, Bool, true, false, ◌&&◌, ◌||◌, not, Option, none, some, List, [],
  ◌∷◌, ◌++◌, length, take, drop, get_or, any, replicate, ltb, leb, ◌==◌, if◌then◌else◌, Result, ok,
  err, ◌>>=◌, ◌>>◌, guard,
}
use landscape_rill.Base.Bytes.{be_value}
use landscape_rill.Base.Text.{text_eq}
use landscape_rill.Route.Prefix.{Prefix, IpAddr, ipv4, ipv6, new}
use landscape_rill.Dn42.Message.{
  afi_ipv4, Capability, mp_bgp, route_refresh, four_octet_as, OpenMsg, Segment, PathAttr, origin,
  as_path, as4_path, next_hop, communities, mp_reach, mp_unreach, UpdateMsg, NotificationMsg,
  RouteRefreshMsg, Message, open_message, update, notification, keepalive, refresh,
}
use landscape_rill.Dn42.Wire.{
  header_len, type_open, type_update, type_notification, type_keepalive, type_route_refresh,
  cap_mp_bgp, cap_route_refresh, cap_four_octet_as, as_set, WireError, bad_marker, bad_length,
  truncated, bad_open, bad_update, unknown_well_known, bad_type, Failure, refused, panicked,
  require, while_left, u16_at, numbers, octets_of,
}

abbrev pub is_long : ℕ → List ℕ → Bool
is_long n buf = not (ltb (length buf) n)

abbrev pub built {ℓ} : {A : Type ℓ} → Option Prefix → A → Result Failure (Prefix × A)
built none rest = err (refused bad_update)
built (some p) rest = ok (p, rest)

-- A round of `read_nlris`. `pbits[..octets]` panics past the sixteen bytes of `pbits`.
unfoldable pub read_nlri : Bool → List ℕ → Result Failure (Prefix × List ℕ)
read_nlri v4 buf =
    let bits = get_or buf 0 0 in
    let octets = octets_of bits in
    let pbits = be_value (take octets (drop 1 buf) ++ replicate (16 - octets) 0) in
    require (is_long (1 + octets) buf) truncated
    >> (guard (leb octets 16) panicked >> built (new pbits bits v4) (drop (1 + octets) buf))

unfoldable pub read_nlris : Bool → List ℕ → Result Failure (List Prefix)
read_nlris v4 buf = while_left (read_nlri v4) buf

unfoldable pub decode_segment : Bool → List ℕ → Result Failure (Segment × List ℕ)
decode_segment wide buf =
    let count = get_or buf 1 0 in
    let asn_len = if wide then 4 else 2 in
    require (is_long 2 buf) truncated
    >> (require (is_long (2 + count * asn_len) buf) truncated
        >> ok (
          record { is_set = get_or buf 0 0 == as_set; asns = numbers asn_len count (drop 2 buf) },
          drop (2 + count * asn_len) buf,
        ))

unfoldable pub decode_segments_exact : Bool → List ℕ → Result Failure (List Segment)
decode_segments_exact wide buf = while_left (decode_segment wide) buf

-- `or_else`, which does not catch a panic.
abbrev pub or_else {ℓ} : {A : Type ℓ} → Result Failure A → Result Failure A → Result Failure A
or_else (err (refused e)) other = other
or_else r other = r

-- ::ffff:a.b.c.d is an IPv4 address.
abbrev pub is_mapped : List ℕ → Bool
is_mapped bytes = text_eq (take 12 bytes) (replicate 10 0 ++ (255 ∷ 255 ∷ []))

unfoldable pub decode_next_hop : List ℕ → Result Failure IpAddr
decode_next_hop bytes =
    if length bytes == 4
    then ok (ipv4 (be_value bytes))
    else if length bytes == 16 || length bytes == 32
    then if is_mapped bytes
      then ok (ipv4 (be_value (take 4 (drop 12 bytes))))
      else ok (ipv6 (be_value (take 16 bytes)))
    else err (refused bad_update)

unfoldable pub decode_mp_reach : List ℕ → Result Failure PathAttr
decode_mp_reach v =
    let afi = u16_at 0 v in
    let nh_len = get_or v 3 0 in
    require (is_long 3 v) truncated
    >> (require (is_long 4 v) truncated
        >> (require (is_long (4 + nh_len + 1) v) truncated
            >> (decode_next_hop (take nh_len (drop 4 v)) >>= λ hop.
                read_nlris (afi == afi_ipv4) (drop (5 + nh_len) v) >>= λ nlri.
                ok (mp_reach afi (get_or v 2 0) hop nlri))))

unfoldable pub decode_mp_unreach : List ℕ → Result Failure PathAttr
decode_mp_unreach v =
    let afi = u16_at 0 v in
    require (is_long 3 v) truncated
    >> (read_nlris (afi == afi_ipv4) (drop 3 v) >>= λ nlri. ok (mp_unreach afi (get_or v 2 0) nlri))

-- What a round of `decode_attrs` finds: an attribute, some communities, or what it may skip.
pub data AttrItem : Type 0 where
  found : PathAttr → AttrItem
  tags : List ℕ → AttrItem
  skipped : AttrItem

-- The `match` on the type and the optional flag.
unfoldable pub decode_value : ℕ → Bool → List ℕ → Result Failure AttrItem
decode_value ty optional value =
    if ty == 1 && length value == 1
    then ok (found (origin (get_or value 0 0)))
    else if ty == 2
    then or_else (decode_segments_exact true value) (decode_segments_exact false value)
      >>= (λ segs. ok (found (as_path segs)))
    else if ty == 3 && length value == 4
    then ok (found (next_hop (be_value value)))
    else if ty == 8
    then require (length value % 4 == 0) bad_update
      >> ok (tags (numbers 4 (length value / 4) value))
    else if ty == 14
    then decode_mp_reach value >>= (λ a. ok (found a))
    else if ty == 15
    then decode_mp_unreach value >>= (λ a. ok (found a))
    else if ty == 17
    then decode_segments_exact true value >>= (λ segs. ok (found (as4_path segs)))
    else if optional
    then ok skipped
    else err (refused (unknown_well_known ty))

-- `flags & 0x10 != 0` and `flags & 0x80 != 0`.
abbrev pub is_extended : ℕ → Bool
is_extended flags = flags / 16 % 2 == 1

abbrev pub is_optional : ℕ → Bool
is_optional flags = flags / 128 % 2 == 1

-- The attribute of a header and a value of these lengths.
unfoldable pub attr_of : ℕ → ℕ → List ℕ → Result Failure (AttrItem × List ℕ)
attr_of hdr len buf =
    require (is_long (hdr + len) buf) truncated
    >> (decode_value (get_or buf 1 0) (is_optional (get_or buf 0 0)) (take len (drop hdr buf))
        >>= λ item. ok (item, drop (hdr + len) buf))

abbrev pub hdr_of : ℕ → ℕ
hdr_of flags = if is_extended flags then 4 else 3

unfoldable pub decode_attr : List ℕ → Result Failure (AttrItem × List ℕ)
decode_attr buf =
    let flags = get_or buf 0 0 in
    let len = if is_extended flags then u16_at 2 buf else get_or buf 2 0 in
    require (is_long 2 buf) truncated
    >> (require (is_long (hdr_of flags) buf) truncated >> attr_of (hdr_of flags) len buf)

abbrev pub attrs_of : List AttrItem → List PathAttr
attrs_of [] = []
attrs_of (found a ∷ items) = a ∷ attrs_of items
attrs_of (tags cs ∷ items) = attrs_of items
attrs_of (skipped ∷ items) = attrs_of items

abbrev pub tags_of : List AttrItem → List ℕ
tags_of [] = []
tags_of (found a ∷ items) = tags_of items
tags_of (tags cs ∷ items) = cs ++ tags_of items
tags_of (skipped ∷ items) = tags_of items

abbrev pub with_tags : List ℕ → List PathAttr
with_tags [] = []
with_tags (c ∷ cs) = communities (c ∷ cs) ∷ []

unfoldable pub decode_attrs : List ℕ → Result Failure (List PathAttr)
decode_attrs buf =
    while_left decode_attr buf >>= λ items. ok (attrs_of items ++ with_tags (tags_of items))

unfoldable pub decode_update : List ℕ → Result Failure Message
decode_update body =
    let wlen = u16_at 0 body in
    let alen = u16_at (2 + wlen) body in
    require (is_long 4 body) truncated
    >> (require (is_long (2 + wlen + 2) body) truncated
        >> (read_nlris true (take wlen (drop 2 body)) >>= λ withdrawn.
            require (is_long (2 + wlen + 2 + alen) body) truncated
            >> (decode_attrs (take alen (drop (4 + wlen) body)) >>= λ attrs.
                read_nlris true (drop (4 + wlen + alen) body) >>= λ announced.
                ok (
                  update
                    (record { withdrawn = withdrawn; attrs = attrs; announced = announced })))))

-- The capability of a code, a length and a value; an unknown one is skipped.
abbrev pub capability_of : ℕ → List ℕ → List Capability
capability_of code value =
    if code == cap_mp_bgp && length value == 4
    then mp_bgp (u16_at 0 value) (get_or value 3 0) ∷ []
    else if code == cap_route_refresh && length value == 0
    then route_refresh ∷ []
    else if code == cap_four_octet_as && length value == 4
    then four_octet_as (be_value value) ∷ []
    else []

-- A type or code, a length and so many bytes: a round of both loops of `decode_open`.
unfoldable pub decode_tlv : List ℕ → Result Failure ((ℕ × List ℕ) × List ℕ)
decode_tlv buf =
    let len = get_or buf 1 0 in
    require (is_long 2 buf) bad_open
    >> (require (is_long (2 + len) buf) bad_open
        >> ok ((get_or buf 0 0, take len (drop 2 buf)), drop (2 + len) buf))

abbrev pub all_capabilities : List (ℕ × List ℕ) → List Capability
all_capabilities [] = []
all_capabilities (c ∷ cs) = capability_of c.0 c.1 ++ all_capabilities cs

-- A round of the outer loop: the capabilities of a parameter of type 2.
unfoldable pub decode_parameter : List ℕ → Result Failure (List Capability × List ℕ)
decode_parameter buf = decode_tlv buf >>= λ p.
    if p.0.0 == 2
    then while_left decode_tlv p.0.1 >>= (λ caps. ok (all_capabilities caps, p.1))
    else ok ([], p.1)

abbrev pub flatten {ℓ} : {A : Type ℓ} → List (List A) → List A
flatten [] = []
flatten (l ∷ ls) = l ++ flatten ls

-- `as4`: the last four-octet number, or the two-octet field.
abbrev pub last_as4 : ℕ → List Capability → ℕ
last_as4 as4 [] = as4
last_as4 as4 (four_octet_as asn ∷ cs) = last_as4 asn cs
last_as4 as4 (mp_bgp afi safi ∷ cs) = last_as4 as4 cs
last_as4 as4 (route_refresh ∷ cs) = last_as4 as4 cs

unfoldable pub decode_open : List ℕ → Result Failure Message
decode_open body =
    let opt_len = get_or body 9 0 in
    require (is_long 10 body) truncated
    >> (require (is_long (10 + opt_len) body) truncated
        >> (while_left decode_parameter (take opt_len (drop 10 body)) >>= λ params.
            let caps = flatten params in
            ok (
              open_message (record {
                as4 = last_as4 (u16_at 1 body) caps;
                hold_time = u16_at 3 body;
                bgp_id = be_value (take 4 (drop 5 body));
                capabilities = caps;
              }))))

abbrev pub is_marked : List ℕ → Bool
is_marked buf = not (any (λ b. not (b == 255)) (take 16 buf))

-- The `match` on the type.
unfoldable pub decode_body : ℕ → List ℕ → Result Failure Message
decode_body ty body =
    if ty == type_keepalive
    then ok keepalive
    else if ty == type_open
    then decode_open body
    else if ty == type_update
    then decode_update body
    else if ty == type_notification
    then require (is_long 2 body) truncated
      >> ok (
          notification
            (record { code = get_or body 0 0; subcode = get_or body 1 0; payload = drop 2 body }))
    else if ty == type_route_refresh
    then require (length body == 4) truncated
      >> ok (refresh (record { afi = u16_at 0 body; safi = get_or body 3 0 }))
    else err (refused (bad_type ty))

unfoldable pub decode : List ℕ → Result Failure Message
decode buf =
    let len = u16_at 16 buf in
    require (is_long header_len buf) truncated
    >> (require (is_marked buf) bad_marker
        >> (require (len == length buf) (bad_length len)
            >> decode_body (get_or buf 18 0) (drop header_len buf)))
