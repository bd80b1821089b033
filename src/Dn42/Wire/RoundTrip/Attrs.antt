-- ===== src/Dn42/Wire/RoundTrip/Attrs.antt =====
-- Path attributes are read back as they were written, the communities behind the others.
use landscape_rill.Base.{
  ℕ, ◌/◌, ◌%◌, ◌^◌, ◌≡◌, ◌<◌, ◌≤◌, refl, sym, ap, ◌∙◌, true, false, not, List, ◌∷◌, ◌++◌, All,
  length, ◌==◌, Result, ok, err, ◌>>=◌, arith, Bool-cases, inl, inr, Result-cases,
}
use mathlib.Core.Path.{subst}
use landscape_rill.Base.Bytes.{be_bytes, be_value-be_bytes}
use landscape_rill.Route.Prefix.{Prefix, IpAddr, ipv4, ipv6, IsIp}
use landscape_rill.Dn42.Message.{
  afi_ipv4, PathAttr, origin, as_path, as4_path, next_hop, communities, mp_reach, mp_unreach,
}
use landscape_rill.Dn42.Wire.{u16_at}
use landscape_rill.Dn42.Wire.Read.{
  is_long, AttrItem, found, tags, is_mapped, decode_next_hop, decode_mp_reach, decode_mp_unreach,
  decode_value, is_extended, is_optional, decode_attr,
}
use landscape_rill.Dn42.Wire.Write.{
  any_v4, write_nlris, write_communities, write_hop, attr_value, attr_bytes, write_attr,
}
use landscape_rill.Dn42.Wire.RoundTrip.Headers.{decode_attr-attr_bytes}
use landscape_rill.Dn42.Wire.RoundTrip.Routes.{IsRoute, read_nlris-write_nlris}
use landscape_rill.Dn42.Wire.RoundTrip.Segments.{
  IsU32, IsSegment, decode_segments-write_segments, length-write_communities,
  numbers-write_communities,
}

-- A next hop that is not an IPv4 address in the clothes of an IPv6 one.
abbrev pub IsHop : IpAddr → Type 0
IsHop (ipv4 ip) = IsIp (ipv4 ip)
IsHop (ipv6 ip) = IsIp (ipv6 ip) × (is_mapped (be_bytes 16 ip) ≡ false)

-- An attribute whose parts fit their fields.
abbrev pub IsAttr : PathAttr → Type 0
IsAttr (origin o) = Unit
IsAttr (as_path segs) = All IsSegment segs
IsAttr (as4_path segs) = All IsSegment segs
IsAttr (next_hop ip) = IsU32 ip
IsAttr (communities cs) = All IsU32 cs
IsAttr (mp_reach afi safi hop nlri) =
    (afi < 2 ^ 16) × IsHop hop × All (IsRoute (afi == afi_ipv4)) nlri
IsAttr (mp_unreach afi safi nlri) = (afi < 2 ^ 16) × All (IsRoute (afi == afi_ipv4)) nlri

abbrev pub item_of : PathAttr → AttrItem
item_of (communities cs) = tags cs
item_of (origin o) = found (origin o)
item_of (as_path segs) = found (as_path segs)
item_of (as4_path segs) = found (as4_path segs)
item_of (next_hop ip) = found (next_hop ip)
item_of (mp_reach afi safi hop nlri) = found (mp_reach afi safi hop nlri)
item_of (mp_unreach afi safi nlri) = found (mp_unreach afi safi nlri)

decode_next_hop-ipv4 : (ip : ℕ) → IsU32 ip → decode_next_hop (be_bytes 4 ip) ≡ ok (ipv4 ip)
unfolding decode_next_hop
decode_next_hop-ipv4 ip h = ap (λ v. ok (ipv4 v)) (be_value-be_bytes 4 ip h)

decode_next_hop-ipv6 : (ip : ℕ) → IsHop (ipv6 ip) → decode_next_hop (be_bytes 16 ip) ≡ ok (ipv6 ip)
unfolding decode_next_hop
decode_next_hop-ipv6 ip h = rw (h.1) (ap (λ v. ok (ipv6 v)) (be_value-be_bytes 16 ip h.0))

decode_mp_reach_lem :
    (afi safi : ℕ) (hop : IpAddr) (nlri : List Prefix)
    → afi < 2 ^ 16
    → IsHop hop
    → All (IsRoute (afi == afi_ipv4)) nlri
    → decode_mp_reach (be_bytes 2 afi ++ (safi ∷ (write_hop hop ++ (0 ∷ write_nlris nlri))))
      ≡ ok (mp_reach afi safi hop nlri)
unfolding decode_mp_reach
decode_mp_reach_lem afi safi (ipv4 ip) nlri h hh routes =
    let buf = be_bytes 2 afi ++ (safi ∷ (write_hop (ipv4 ip) ++ (0 ∷ write_nlris nlri))) in
    let three : is_long 3 buf ≡ true = ground arith in
    let four : is_long 4 buf ≡ true = ground arith in
    let nine : is_long 9 buf ≡ true = ground arith in
    let family : u16_at 0 buf ≡ afi = be_value-be_bytes 2 afi h in
    rw (
      three,
      four,
      nine,
      family,
      decode_next_hop-ipv4 ip hh,
      read_nlris-write_nlris (afi == afi_ipv4) nlri routes,
    )
decode_mp_reach_lem afi safi (ipv6 ip) nlri h hh routes =
    let buf = be_bytes 2 afi ++ (safi ∷ (write_hop (ipv6 ip) ++ (0 ∷ write_nlris nlri))) in
    let three : is_long 3 buf ≡ true = ground arith in
    let four : is_long 4 buf ≡ true = ground arith in
    let all : is_long 21 buf ≡ true = ground arith in
    let family : u16_at 0 buf ≡ afi = be_value-be_bytes 2 afi h in
    rw (
      three,
      four,
      all,
      family,
      decode_next_hop-ipv6 ip hh,
      read_nlris-write_nlris (afi == afi_ipv4) nlri routes,
    )

decode_mp_unreach_lem :
    (afi safi : ℕ) (nlri : List Prefix)
    → afi < 2 ^ 16
    → All (IsRoute (afi == afi_ipv4)) nlri
    → decode_mp_unreach (be_bytes 2 afi ++ (safi ∷ write_nlris nlri))
      ≡ ok (mp_unreach afi safi nlri)
unfolding decode_mp_unreach
decode_mp_unreach_lem afi safi nlri h routes =
    let buf = be_bytes 2 afi ++ (safi ∷ write_nlris nlri) in
    let three : is_long 3 buf ≡ true = ground arith in
    let family : u16_at 0 buf ≡ afi = be_value-be_bytes 2 afi h in
    rw (three, family, read_nlris-write_nlris (afi == afi_ipv4) nlri routes)

decode_communities_lem :
    (cs : List ℕ) → All IsU32 cs → decode_value 8 true (write_communities cs) ≡ ok (tags cs)
unfolding decode_value
decode_communities_lem cs h =
    let size = length-write_communities cs in
    let whole : (length (write_communities cs) % 4 == 0) ≡ true = ground (arith, size) in
    let count : length (write_communities cs) / 4 ≡ length cs = omega (arith, size) in
    rw (whole, count, numbers-write_communities cs h)

-- A property of a result's value.
abbrev OnOk {ℓ κ} : {E A : Type ℓ} → (A → Type κ) → Result E A → Type κ
OnOk P (ok a) = P a
OnOk P (err e) = Unit

-- What is written of an attribute is read as its item.
abbrev IsRead : PathAttr → ℕ × ℕ × List ℕ → Type 0
IsRead a (ty, flags, value) =
    (is_extended flags ≡ false) × (decode_value ty (is_optional flags) value ≡ ok (item_of a))

attr_value-IsRead : (a : PathAttr) → IsAttr a → OnOk (IsRead a) (attr_value a)
unfolding attr_value decode_value
attr_value-IsRead (origin o) h = (refl, refl)
attr_value-IsRead (as_path segs) h = (refl, rw (decode_segments-write_segments segs h))
attr_value-IsRead (as4_path segs) h = (refl, rw (decode_segments-write_segments segs h))
attr_value-IsRead (next_hop ip) h =
    (refl, ap (λ v. ok (found (next_hop v))) (be_value-be_bytes 4 ip h))
attr_value-IsRead (communities cs) h = (refl, decode_communities_lem cs h)
attr_value-IsRead (mp_reach afi safi hop nlri) h = elim (Bool-cases (not (any_v4 nlri))) [
  | inl e ↦ rw e (refl, rw (decode_mp_reach_lem afi safi hop nlri h.0 h.1 h.2))
  | inr e ↦ rw e tt
]
attr_value-IsRead (mp_unreach afi safi nlri) h = elim (Bool-cases (not (any_v4 nlri))) [
  | inl e ↦ rw e (refl, rw (decode_mp_unreach_lem afi safi nlri h.0 h.1))
  | inr e ↦ rw e tt
]

length-attr_bytes :
    (ty flags : ℕ) (value : List ℕ) → length value ≤ length (attr_bytes (ty, flags, value))
length-attr_bytes ty flags value = ground arith

written_as :
    (a : PathAttr) (v : ℕ × ℕ × List ℕ) (bytes : List ℕ)
    → attr_value a ≡ ok v
    → write_attr a ≡ ok bytes
    → attr_bytes v ≡ bytes
unfolding write_attr
written_as a v bytes e w =
    let wrote : write_attr a ≡ ok (attr_bytes v) = ap (λ r. r >>= λ x. ok (attr_bytes x)) e in cc

-- A round of `decode_attrs` reads the item of an attribute that was written.
pub decode_attr-write_attr :
    (a : PathAttr) (bytes rest : List ℕ)
    → IsAttr a
    → write_attr a ≡ ok bytes
    → length bytes < 2 ^ 16
    → decode_attr (bytes ++ rest) ≡ ok (item_of a, rest)
unfolding write_attr
decode_attr-write_attr a bytes rest h w fits = elim (Result-cases (attr_value a)) [
  | inl ((ty, flags, value), e) ↦
      let read : IsRead a (ty, flags, value) = subst (OnOk (IsRead a)) e (attr_value-IsRead a h) in
      let b = written_as a (ty, flags, value) bytes e w in
      let small = length-attr_bytes ty flags value in
      let l = ap length b in
      ap (λ x. decode_attr (x ++ rest)) (sym b)
      ∙ decode_attr-attr_bytes ty flags value rest read.0 (omega (arith, small, l, fits))
      ∙ ap (λ r. r >>= λ item. ok (item, rest)) read.1
  | inr (x, e) ↦ let lost : write_attr a ≡ err x = ap (λ r. r >>= λ v. ok (attr_bytes v)) e in cc
]

pub length-write_attr : (a : PathAttr) (bytes : List ℕ) → write_attr a ≡ ok bytes → 0 < length bytes
unfolding write_attr
length-write_attr a bytes w = elim (Result-cases (attr_value a)) [
  | inl ((ty, flags, value), e) ↦
      let l = ap length (written_as a (ty, flags, value) bytes e w) in
      let some_byte : 0 < length (attr_bytes (ty, flags, value)) = ground arith in
      omega (arith, l, some_byte)
  | inr (x, e) ↦ let lost : write_attr a ≡ err x = ap (λ r. r >>= λ v. ok (attr_bytes v)) e in cc
]
