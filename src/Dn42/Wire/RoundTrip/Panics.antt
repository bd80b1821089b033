-- ===== src/Dn42/Wire/RoundTrip/Panics.antt =====
-- A length byte above 128 in front of enough bytes makes `read_nlris` panic.
use landscape_rill.Base.{
  ℕ, ◌+◌, ◌≡◌, ◌<◌, ◌≤◌, ◌∙◌, Bool, true, false, List, ◌∷◌, length, leb, err, arith,
}
use landscape_rill.Dn42.Wire.{panicked, many, octets_of, type_update}
use landscape_rill.Dn42.Wire.Read.{
  is_long, read_nlri, read_nlris, decode_attrs, decode_update, decode_body, decode,
}
use landscape_rill.Dn42.Wire.Write.{frame}
use landscape_rill.Dn42.Wire.RoundTrip.Frames.{decode-frame}

read_nlri-panics :
    (v4 : Bool) (bits : ℕ) (rest : List ℕ)
    → 128 < bits
    → octets_of bits ≤ length rest
    → read_nlri v4 (bits ∷ rest) ≡ err panicked
unfolding read_nlri
read_nlri-panics v4 bits rest h l =
    let long : is_long (1 + octets_of bits) (bits ∷ rest) ≡ true = ground arith in
    let many_octets : leb (octets_of bits) 16 ≡ false = ground arith in rw (long, many_octets)

-- An UPDATE that announces a prefix of a length of more than 128 bits, with at least the bytes that
-- such a length asks for and fewer than 4096, makes `decode` panic.
pub decode-panics :
    (bits : ℕ) (rest : List ℕ)
    → 128 < bits
    → octets_of bits ≤ length rest
    → length rest < 4096
    → decode (frame type_update (0 ∷ 0 ∷ 0 ∷ 0 ∷ bits ∷ rest)) ≡ err panicked
unfolding decode_body decode_update read_nlris many decode_attrs
decode-panics bits rest h l fits =
    let body = 0 ∷ 0 ∷ 0 ∷ 0 ∷ bits ∷ rest in
    let opened = decode-frame type_update body (omega (arith, fits)) in
    let found = read_nlri-panics true bits rest h l in
    let long : is_long 4 body ≡ true = ground arith in opened ∙ rw (long, found)
