-- ===== src/Frame/Sealed/RoundTrip.antt =====
-- `open_frame` of what `build_frame` made.
use landscape_rill.Base.{
  ℕ, ◌+◌, ◌-◌, ◌^◌, ◌≡◌, ◌<◌, refl, sym, ap, ◌∙◌, ◌==◌, true, false, ◌||◌, List, [], ◌++◌, length,
  take, drop, replicate, ltb, length-append, length-drop, Result, Result-cases, ok, err, inl, inr,
  ◌>>=◌, arith,
}
use landscape_rill.Base.Slices.{
  take-append_at, drop-append_at, drop-all, take-all, length-replicate, append-nil,
}
use landscape_rill.Base.Text.{text_eq, text_eq_refl}
use landscape_rill.Crypto.{
  Cipher, IsAead, AeadError, nonce, tag_len, sealed_over, seal_in_place, open_in_place, open_sealed,
}
use landscape_rill.Frame.Header.{
  MeshFrameHeader, IsHeader, wire_bytes, header_len, frame_version, encode, auth_input,
}
use landscape_rill.Frame.Header.Codec.{framed, decode-framed, length-wire_bytes}
use landscape_rill.Frame.Sealed.{
  decode_error, check_header, signed, build_frame, validate_frame, open_validated, open_frame,
  map_err, aead,
}

module _ (c : Cipher) (good : IsAead c) (session_key : List ℕ) (salt counter : ℕ)
    (aad payload : List ℕ) where
  -- Sealing a payload in a buffer that has exactly 16 bytes behind it.
  seal_in_place-exact :
      (room : List ℕ)
      → length room ≡ 16
      → seal_in_place c session_key salt counter aad (payload ++ room) (length payload) ≡ (
          c.encrypt session_key (nonce salt counter) aad payload >>= λ r.
          ok (r.0 ++ (take 16 r.1 ++ [])))
  unfolding seal_in_place
  seal_in_place-exact room e =
      let n = length-append payload room in
      let roomy : (ltb (length (payload ++ room)) (length payload)
            || ltb (length (payload ++ room) - length payload) tag_len)
          ≡ false =
        ground arith in
      let rest : drop (length payload + 16) (payload ++ room) ≡ [] =
        drop-all (payload ++ room) (length payload + 16) (omega (arith, n, e)) in
      rw roomy (
        ap
          (λ (m : List ℕ). c.encrypt session_key (nonce salt counter) aad m >>= λ r.
            ok (sealed_over (payload ++ room) (length payload) r))
          (take-append_at payload room (length payload) refl)
        ∙ ap
            (λ (d : List ℕ). c.encrypt session_key (nonce salt counter) aad payload >>= λ r.
              ok (r.0 ++ (take 16 r.1 ++ d)))
            rest)

  -- Opening it again.
  open_sealed-sealed :
      (r : List ℕ × List ℕ)
      → c.encrypt session_key (nonce salt counter) aad payload ≡ ok r
      → open_sealed c session_key salt counter aad (r.0 ++ (take 16 r.1 ++ [])) ≡ ok payload
  unfolding open_sealed open_in_place
  open_sealed-sealed r e =
      let (ct, tag) = good.sized session_key (nonce salt counter) aad payload r e in
      let whole : take 16 r.1 ≡ r.1 = take-all r.1 16 (omega (arith, tag)) in
      let n = length-append r.0 r.1 in
      let long : (ltb (length (r.0 ++ r.1)) (length (r.0 ++ r.1))
            || ltb (length (r.0 ++ r.1)) tag_len)
          ≡ false =
        ground arith in
      let cut : length (r.0 ++ r.1) - tag_len ≡ length r.0 = omega (arith, n, tag) in
      let ct_at = take-append_at r.0 r.1 (length r.0) refl in
      let tag_at = drop-append_at r.0 r.1 (length r.0) refl in
      let plain = good.decrypts session_key (nonce salt counter) aad payload r e in
      rw (append-nil (take 16 r.1), whole, long, cut, ct_at, tag_at, whole, plain)
        (ap (λ (p : List ℕ). ok p) (take-append_at payload r.1 (length r.0) (sym ct)))

check_header-passes :
    (mac : List ℕ → List ℕ → List ℕ) (c : Cipher) (frame key_dst : List ℕ) (w : MeshFrameHeader)
    → (w.version == frame_version) ≡ true
    → text_eq (mac key_dst (auth_input w)) w.route_mac ≡ true
    → ltb (length frame) (header_len + w.len) ≡ false
    → check_header mac c frame key_dst w ≡ ok (w, header_len, header_len + w.len)
check_header-passes mac c frame key_dst w v m l = rw (v, m, l)

module _ (mac : List ℕ → List ℕ → List ℕ) (c : Cipher) (good : IsAead c)
    (mac_sized : (key input : List ℕ) → length (mac key input) ≡ 16) (header : MeshFrameHeader)
    (key_dst session_key : List ℕ) (salt : ℕ) (payload : List ℕ) where
  abbrev sent : MeshFrameHeader
  sent = signed mac c header key_dst (length payload + tag_len)

  sent-IsHeader : IsHeader header → IsHeader sent
  sent-IsHeader i =
      let (v, (p, (f, (t, (to, (from, (s, (l, rest)))))))) = i.fits in
      record {
        fits = (v, (p, (f, (t, (to, (from, (s, (omega arith, rest))))))));
        mac = mac_sized _ _;
      }

  -- The frame is the header and the sealed payload behind it.
  build_frame-framed :
      IsHeader header
      → build_frame mac c header key_dst session_key salt payload ≡ (
          c.encrypt session_key (nonce salt header.seq) (auth_input sent) payload >>= λ r.
          ok (framed sent (r.0 ++ (take 16 r.1 ++ []))))
  unfolding build_frame encode
  build_frame-framed i =
      let zeros = replicate (header_len + length payload + tag_len) 0 in
      let out = encode sent zeros in
      let room = drop (header_len + length payload) out in
      let front : length (wire_bytes sent) ≡ 42 = length-wire_bytes sent (sent-IsHeader i) in
      let zeros_length : length zeros ≡ 42 + length payload + 16 =
        length-replicate (header_len + length payload + tag_len) 0 in
      let out_length = length-append (wire_bytes sent) (drop header_len zeros) in
      let rest_length = length-drop header_len zeros in
      let room_length = length-drop (header_len + length payload) out in
      let exact : length room ≡ 16 =
        omega (arith, front, zeros_length, out_length, rest_length, room_length) in
      let head : take header_len out ≡ wire_bytes sent =
        take-append_at (wire_bytes sent) (drop header_len zeros) 42 front in
      let sealed =
        seal_in_place-exact c good session_key salt header.seq (auth_input sent) payload room
          exact in
      let result = c.encrypt session_key (nonce salt header.seq) (auth_input sent) payload in
      ap (λ x. x >>= λ (body : List ℕ). ok (take header_len out ++ body)) sealed
      ∙ ap
          (λ (w : List ℕ).
            (result >>= λ r. ok (r.0 ++ (take 16 r.1 ++ []))) >>= λ body. ok (w ++ body))
          head
      ∙ assemble result
    where
      assemble :
          (x : Result AeadError (List ℕ × List ℕ))
          → ((x >>= λ r. ok (r.0 ++ (take 16 r.1 ++ []))) >>= λ sealed.
              ok (wire_bytes sent ++ sealed))
            ≡ (x >>= λ r. ok (framed sent (r.0 ++ (take 16 r.1 ++ []))))
      assemble (ok r) = refl
      assemble (err e) = refl

  -- Its validation.
  validate-framed :
      (r : List ℕ × List ℕ)
      → IsHeader header
      → header.version ≡ 1
      → length payload + 16 < 2 ^ 16
      → c.encrypt session_key (nonce salt header.seq) (auth_input sent) payload ≡ ok r
      → validate_frame mac c (framed sent (r.0 ++ (take 16 r.1 ++ []))) key_dst
        ≡ ok (sent, header_len, header_len + sent.len)
  unfolding validate_frame auth_input
  validate-framed r i v fits e =
      let rest = r.0 ++ (take 16 r.1 ++ []) in
      let frame = framed sent rest in
      let (ct, tag) =
        good.sized session_key (nonce salt header.seq) (auth_input sent) payload r e in
      let whole : take 16 r.1 ≡ r.1 = take-all r.1 16 (omega (arith, tag)) in
      let rest_length : length rest ≡ length payload + 16 =
        rw (append-nil (take 16 r.1), whole) (omega (arith, length-append r.0 r.1, ct, tag)) in
      let frame_length : length frame ≡ 42 + length rest =
        omega
          (arith, length-append (wire_bytes sent) rest, length-wire_bytes sent (sent-IsHeader i)) in
      let version_ok : (header.version == frame_version) ≡ true = ground arith in
      let long : ltb (length frame) (header_len + sent.len) ≡ false = ground arith in
      ap (λ d. map_err decode_error d >>= check_header mac c frame key_dst)
        (decode-framed sent rest (sent-IsHeader i))
      ∙ check_header-passes mac c frame key_dst sent version_ok (text_eq_refl sent.route_mac) long

  open-framed :
      (r : List ℕ × List ℕ)
      → IsHeader header
      → length payload + 16 < 2 ^ 16
      → c.encrypt session_key (nonce salt header.seq) (auth_input sent) payload ≡ ok r
      → open_validated mac c
          (framed sent (r.0 ++ (take 16 r.1 ++ [])))
          session_key
          salt
          (sent, header_len, header_len + sent.len)
        ≡ ok (sent, payload)
  open-framed r i fits e =
      let rest = r.0 ++ (take 16 r.1 ++ []) in
      let (ct, tag) =
        good.sized session_key (nonce salt header.seq) (auth_input sent) payload r e in
      let whole : take 16 r.1 ≡ r.1 = take-all r.1 16 (omega (arith, tag)) in
      let rest_length : length rest ≡ length payload + 16 =
        rw (append-nil (take 16 r.1), whole) (omega (arith, length-append r.0 r.1, ct, tag)) in
      let body : drop header_len (framed sent rest) ≡ rest =
        drop-append_at (wire_bytes sent) rest 42 (length-wire_bytes sent (sent-IsHeader i)) in
      let cut : take (header_len + sent.len - header_len) rest ≡ rest =
        take-all rest (header_len + sent.len - header_len) (omega (arith, rest_length)) in
      let opened = λ (bytes : List ℕ).
        map_err aead (open_sealed c session_key salt header.seq (auth_input sent) bytes)
        >>= λ (p : List ℕ). ok (sent, p) in
      ap (λ (bytes : List ℕ). opened (take (header_len + sent.len - header_len) bytes)) body
      ∙ ap opened cut
      ∙ ap (λ o. map_err aead o >>= λ (p : List ℕ). ok (sent, p))
          (open_sealed-sealed c good session_key salt header.seq (auth_input sent) payload r e)

-- What `build_frame` made under some keys opens under the same keys, to the payload, and to the
-- header that was given but for the length and the MAC, which `build_frame` sets; where the header
-- is well formed, of the current version, the payload fits the length field, and encryption did not
-- fail.
pub open_frame-build_frame :
    (mac : List ℕ → List ℕ → List ℕ) (c : Cipher)
    → IsAead c
    → ((key input : List ℕ) → length (mac key input) ≡ 16)
    → (header : MeshFrameHeader) (key_dst session_key : List ℕ) (salt : ℕ) (payload frame : List ℕ)
    → IsHeader header
    → header.version ≡ 1
    → length payload + 16 < 2 ^ 16
    → build_frame mac c header key_dst session_key salt payload ≡ ok frame
    → open_frame mac c frame key_dst session_key salt
      ≡ ok (signed mac c header key_dst (length payload + 16), payload)
unfolding open_frame
open_frame-build_frame mac c good mac_sized header key_dst session_key salt payload frame i v fits
      b =
    elim (Result-cases (c.encrypt session_key (nonce salt header.seq) (auth_input h) payload)) [
      | inl (r, e) ↦
          let made : framed h (r.0 ++ (take 16 r.1 ++ [])) ≡ frame =
            cc (rw e at (sym framing ∙ b)) in
          ap (λ f. open_frame mac c f key_dst session_key salt) (sym made)
          ∙ ap
              (λ o.
                o >>= open_validated mac c (framed h (r.0 ++ (take 16 r.1 ++ []))) session_key salt)
              (validate-framed mac c good mac_sized header key_dst session_key salt payload r i v
                fits e)
          ∙ open-framed mac c good mac_sized header key_dst session_key salt payload r i fits e
      | inr (x, e) ↦ cc (rw e at (sym framing ∙ b))
    ]
  where
    h : MeshFrameHeader
    h = signed mac c header key_dst (length payload + tag_len)

    framing : build_frame mac c header key_dst session_key salt payload ≡ (
        c.encrypt session_key (nonce salt header.seq) (auth_input h) payload >>= λ r.
        ok (framed h (r.0 ++ (take 16 r.1 ++ []))))
    framing = build_frame-framed mac c good mac_sized header key_dst session_key salt payload i
