-- ===== src/Dn42/Wire/RoundTrip/Routes.antt =====
-- Prefixes are read back as they were written.
use landscape_rill.Base.{
  ℕ, suc, ◌+◌, ◌-◌, ◌*◌, ◌≡◌, ◌<◌, ◌≤◌, refl, ap, ◌∙◌, Bool, true, some, List, ◌∷◌, ◌++◌, All,
  length, length-take, length-append, take, drop, replicate, leb, if◌then◌else◌, ok, arith,
}
use mathlib.Core.Path.{subst}
use landscape_rill.Base.Bytes.{be_bytes, be_value, length-be_bytes}
use landscape_rill.Base.Slices.{take-append_at, drop-append_at}
use landscape_rill.Base.Padding.{be_value_padded, whole_octets}
use landscape_rill.Route.Prefix.{Prefix, IsCanonical, new}
use landscape_rill.Route.Prefix.Canonical.{new_canonical}
use landscape_rill.Dn42.Wire.{while_left, octets_of}
use landscape_rill.Dn42.Wire.Read.{is_long, read_nlri, read_nlris}
use landscape_rill.Dn42.Wire.Write.{min, write_nlri, write_nlris}
use landscape_rill.Dn42.Wire.RoundTrip.Loops.{
  write_all, write_all_lem, Reads, map_to_id, All-map, while_left-write_all,
}

-- A prefix that can be read as one of the family.
pub record IsRoute (v4 : Bool) (p : Prefix) : Type 0 where
  pub family : p.v4 ≡ v4
  pub canonical : IsCanonical p

octets_bounds : (len : ℕ) → (len ≤ 8 * octets_of len) × (8 * octets_of len < len + 8)
octets_bounds len = ground arith

octets_short : (p : Prefix) → IsCanonical p → octets_of p.len ≤ (if p.v4 then 4 else 16)
octets_short p c = ground (arith, c.short, octets_bounds p.len)

octets-le : (p : Prefix) → IsCanonical p → octets_of p.len ≤ 16
octets-le p c = ground (arith, octets_short p c)

-- The bytes of a canonical prefix are as many as its length asks for.
pub write_nlri_lem :
    (p : Prefix)
    → IsCanonical p
    → write_nlri p ≡ p.len ∷ take (octets_of p.len) (be_bytes 16 p.bits)
unfolding write_nlri
write_nlri_lem p c =
    let e : min (octets_of p.len) (if p.v4 then 4 else 16) ≡ octets_of p.len =
      ground (arith, octets_short p c) in
    ap (λ n. p.len ∷ take n (be_bytes 16 p.bits)) e

length-octets :
    (p : Prefix)
    → IsCanonical p
    → length (take (octets_of p.len) (be_bytes 16 p.bits)) ≡ octets_of p.len
length-octets p c = ground (
  arith,
  length-take (octets_of p.len) (be_bytes 16 p.bits),
  length-be_bytes 16 p.bits,
  octets-le p c,
)

read_nlri-write_nlri :
    (v4 : Bool) (p : Prefix)
    → IsRoute v4 p
    → (rest : List ℕ) → read_nlri v4 (write_nlri p ++ rest) ≡ ok (p, rest)
unfolding read_nlri
read_nlri-write_nlri v4 p route rest =
    let c = route.canonical in
    let o = octets_of p.len in
    let w = take o (be_bytes 16 p.bits) in
    let size = length-octets p c in
    let short = octets-le p c in
    let long : is_long (1 + o) (p.len ∷ (w ++ rest)) ≡ true =
      ground (arith, length-append w rest, size) in
    let few : leb o 16 ≡ true = ground (arith, short) in
    let value : be_value (w ++ replicate (16 - o) 0) ≡ p.bits =
      be_value_padded 16 o p.bits short c.fits
        (whole_octets p.bits p.len o (octets_bounds p.len).0 short c.aligned) in
    let made : new p.bits p.len v4 ≡ some p =
      subst (λ f. new p.bits p.len f ≡ some p) route.family (new_canonical p c) in
    let e : 1 + o ≡ suc o = omega arith in
    let left : drop (1 + o) (p.len ∷ (w ++ rest)) ≡ rest =
      ap (λ n. drop n (p.len ∷ (w ++ rest))) e ∙ drop-append_at w rest o size in
    rw (write_nlri_lem p c, long, few, take-append_at w rest o size, value, made)
      (ap (λ t. ok (p, t)) left)

write_nlris_all : (ps : List Prefix) → write_nlris ps ≡ write_all write_nlri ps
unfolding write_nlris
write_nlris_all ps = write_all_lem write_nlri write_nlris refl (λ p rest. refl) ps

write_nlri-Reads :
    (v4 : Bool) (p : Prefix) → IsRoute v4 p → Reads (read_nlri v4) write_nlri (λ (q : Prefix). q) p
unfolding write_nlri
write_nlri-Reads v4 p route = (omega arith, read_nlri-write_nlri v4 p route)

-- Canonical prefixes of the family are read back as they were written.
pub read_nlris-write_nlris :
    (v4 : Bool) (ps : List Prefix) → All (IsRoute v4) ps → read_nlris v4 (write_nlris ps) ≡ ok ps
unfolding read_nlris
read_nlris-write_nlris v4 ps h =
    ap (λ b. while_left (read_nlri v4) b) (write_nlris_all ps)
    ∙ while_left-write_all (read_nlri v4) write_nlri (λ (q : Prefix). q) ps
        (All-map (write_nlri-Reads v4) ps h)
    ∙ ap ok (map_to_id ps)
