-- ===== src/Frame/Header/Codec.antt =====
-- The header's round trip, what the MAC covers, and the TTL of a relayed frame.
use landscape_rill.Base.{
  ℕ, ◌+◌, ◌%◌, ◌≡◌, refl, sym, ap, ◌∙◌, ◌↔◌, inl, inr, false, List, [], ◌∷◌, ◌++◌, length, take,
  drop, ltb, ok, arith, Bool-cases, length-append,
}
use landscape_rill.Base.Layout.{Fields, IsFitting, put, get, get-put}
use landscape_rill.Base.Slices.{take-append_at}
use landscape_rill.Frame.Header.{
  MeshFrameHeader, IsHeader, wire_header, wire_bytes, to_wire, from_wire, encode, decode,
  auth_input, decrement_ttl, header_len,
}

pub length-wire_bytes : (h : MeshFrameHeader) → IsHeader h → length (wire_bytes h) ≡ 42
length-wire_bytes h i =
    omega (arith, length-append (put wire_header (to_wire h)) h.route_mac, i.mac)

-- A header in front of any bytes.
abbrev pub framed : MeshFrameHeader → List ℕ → List ℕ
framed h rest = put wire_header (to_wire h) ++ (h.route_mac ++ rest)

pub decode-framed :
    (h : MeshFrameHeader) (rest : List ℕ) → IsHeader h → decode (framed h rest) ≡ ok h
unfolding decode
decode-framed h rest i =
    let fields = get-put wire_header (to_wire h) (h.route_mac ++ rest) i.fits in
    let mac = take-append_at h.route_mac rest 16 i.mac in
    let long : ltb (length (framed h rest)) header_len ≡ false =
      let l = length-append h.route_mac rest in let m = i.mac in ground arith in
    rw long (
      ap (λ (w : Fields wire_header). ok (from_wire w (take 16 (h.route_mac ++ rest)))) fields
      ∙ ap (λ (m : List ℕ). ok (from_wire (to_wire h) m)) mac)

-- A header that was written is read back, whatever follows it.
pub decode-encode : (h : MeshFrameHeader) (out : List ℕ) → IsHeader h → decode (encode h out) ≡ ok h
unfolding encode
decode-encode h out i = decode-framed h (drop header_len out) i

-- The input of the MAC: the wire fields with the TTL at zero.
auth_input-put :
    (h : MeshFrameHeader) → auth_input h ≡ put wire_header (to_wire (record h { ttl = 0 }))
unfolding auth_input
auth_input-put h = refl

cleared-IsFitting :
    (h : MeshFrameHeader) → IsHeader h → IsFitting wire_header (to_wire (record h { ttl = 0 }))
cleared-IsFitting h i = let (v, (p, (f, (t, rest)))) = i.fits in (v, (p, (f, (omega arith, rest))))

-- Two headers have the same MAC input exactly if they agree in every field but the TTL and the MAC.
pub auth_input-eq_iff :
    (a b : MeshFrameHeader)
    → IsHeader a
    → IsHeader b
    → (auth_input a ≡ auth_input b)
      ↔ (record a { ttl = 0; route_mac = [] } ≡ record b { ttl = 0; route_mac = [] })
unfolding auth_input
auth_input-eq_iff a b i j =
    let zero_a = get-put wire_header (to_wire (record a { ttl = 0 })) [] (cleared-IsFitting a i) in
    let zero_b = get-put wire_header (to_wire (record b { ttl = 0 })) [] (cleared-IsFitting b j) in
    (
      λ e.
          ap (λ (w : Fields wire_header). from_wire w [])
            (sym zero_a ∙ ap (λ (bs : List ℕ). get wire_header (bs ++ [])) e ∙ zero_b),
      λ e. ap (λ (h : MeshFrameHeader). put wire_header (to_wire h)) e,
    )

module _ (a b c t : ℕ) (rest : List ℕ) where
  abbrev long_frame : List ℕ
  long_frame = a ∷ b ∷ c ∷ t ∷ rest

  abbrev its_header : MeshFrameHeader
  its_header = from_wire (get wire_header long_frame) (take 16 (drop 26 long_frame))

  decode-long : ltb (length long_frame) header_len ≡ false → decode long_frame ≡ ok its_header
  unfolding decode
  decode-long long = rw long

  decrement_ttl-long :
      ltb (length long_frame) header_len ≡ false
      → decrement_ttl long_frame ≡ a ∷ b ∷ c ∷ ((t + 255) % 256) ∷ rest
  unfolding decrement_ttl
  decrement_ttl-long long = rw long

-- A relay's write of the TTL, on a frame with a whole header: the header that is read behind it is
-- the old one with the TTL one lower, modulo 256, its MAC input is that of the old one, and the
-- payload is left alone.
pub decode-decrement_ttl :
    (frame : List ℕ) (h : MeshFrameHeader)
    → decode frame ≡ ok h
    → (decode (decrement_ttl frame) ≡ ok (record h { ttl = (h.ttl + 255) % 256 }))
      × (auth_input (record h { ttl = (h.ttl + 255) % 256 }) ≡ auth_input h)
      × (drop header_len (decrement_ttl frame) ≡ drop header_len frame)
unfolding decode auth_input
decode-decrement_ttl [] h e = cc e
decode-decrement_ttl (a ∷ []) h e = cc e
decode-decrement_ttl (a ∷ b ∷ []) h e = cc e
decode-decrement_ttl (a ∷ b ∷ c ∷ []) h e = cc e
decode-decrement_ttl (a ∷ b ∷ c ∷ t ∷ rest) h e =
    elim (Bool-cases (ltb (length (a ∷ b ∷ c ∷ t ∷ rest)) header_len)) [
      | inl short ↦ cc (rw short at e)
      | inr long ↦
          let same : its_header a b c t rest ≡ h = cc (sym (decode-long a b c t rest long) ∙ e) in
          let less = decrement_ttl-long a b c t rest long in
          (
            ap decode less
                ∙ decode-long a b c ((t + 255) % 256) rest long
                ∙ ap (λ (n : ℕ). ok (record (its_header a b c t rest) { ttl = n })) (omega arith)
                ∙ ap (λ (g : MeshFrameHeader). ok (record g { ttl = (g.ttl + 255) % 256 })) same,
            refl,
            ap (λ (f : List ℕ). drop header_len f) less,
          )
    ]
