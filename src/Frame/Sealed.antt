-- ===== src/Frame/Sealed.antt =====
-- rill-core/src/frame/mod.rs: building and opening a data frame. The route MAC and the cipher are
-- parameters: `mac key input` is `crypto::route_mac`, SipHash under keys that HKDF derives.
pub mod RoundTrip
pub mod Relay
pub mod InPlace
mod Examples
use landscape_rill.Base.{
  ℕ, ◌+◌, ◌^◌, ◌%◌, ◌-◌, ◌==◌, not, Bool, true, false, List, [], ◌∷◌, ◌++◌, length, take, drop,
  replicate, ltb, if◌then◌else◌, Result, ok, err, ◌>>=◌, ◌>>◌, guard,
}
use landscape_rill.Base.Text.{text_eq}
use landscape_rill.Crypto.{Cipher, AeadError, tag_len, seal_in_place, open_in_place, open_sealed}
use landscape_rill.Frame.Header.{
  MeshFrameHeader, DecodeError, header_len, frame_version, encode, decode, auth_input,
}

pub data OpenError : Type 0 where
  decode_error : DecodeError → OpenError
  version_error : OpenError
  route_mac_error : OpenError
  truncated_payload : OpenError
  aead : AeadError → OpenError

-- `map_err`.
abbrev pub map_err {ℓ κ μ} :
    {E : Type ℓ} {F : Type κ} {A : Type μ} → (E → F) → Result E A → Result F A
map_err f (ok a) = ok a
map_err f (err e) = err (f e)

module _ (mac : List ℕ → List ℕ → List ℕ) (c : Cipher) where
  -- The header that `build_frame` writes.
  abbrev pub signed : MeshFrameHeader → List ℕ → ℕ → MeshFrameHeader
  signed header key_dst len =
      let h = record header { len = len % 2 ^ 16 } in
      record h { route_mac = mac key_dst (auth_input h) }

  unfoldable pub build_frame :
      MeshFrameHeader → List ℕ → List ℕ → ℕ → List ℕ → Result AeadError (List ℕ)
  build_frame header key_dst session_key salt payload =
      let h = signed header key_dst (length payload + tag_len) in
      let out = encode h (replicate (header_len + length payload + tag_len) 0) in
      let body = payload ++ drop (header_len + length payload) out in
      seal_in_place c session_key salt h.seq (auth_input h) body (length payload) >>= λ sealed.
      ok (take header_len out ++ sealed)

  -- The checks of `validate_frame` behind the decoding.
  abbrev pub check_header :
      List ℕ → List ℕ → MeshFrameHeader → Result OpenError (MeshFrameHeader × ℕ × ℕ)
  check_header frame key_dst w =
      guard (w.version == frame_version) version_error
      >> (guard (text_eq (mac key_dst (auth_input w)) w.route_mac) route_mac_error
          >> (guard (not (ltb (length frame) (header_len + w.len))) truncated_payload
              >> ok (w, header_len, header_len + w.len)))

  -- The header, with the ends of the payload in the frame.
  unfoldable pub validate_frame : List ℕ → List ℕ → Result OpenError (MeshFrameHeader × ℕ × ℕ)
  validate_frame frame key_dst = map_err decode_error (decode frame) >>= check_header frame key_dst

  abbrev pub open_validated :
      List ℕ → List ℕ → ℕ → MeshFrameHeader × ℕ × ℕ → Result OpenError (MeshFrameHeader × List ℕ)
  open_validated frame session_key salt (header, hlen, end) =
      map_err aead (
        open_sealed c session_key salt header.seq (auth_input header)
          (take (end - hlen) (drop hlen frame)))
      >>= λ payload. ok (header, payload)

  unfoldable pub open_frame :
      List ℕ → List ℕ → List ℕ → ℕ → Result OpenError (MeshFrameHeader × List ℕ)
  open_frame frame key_dst session_key salt =
      validate_frame frame key_dst >>= open_validated frame session_key salt

  -- The header, the slice of the frame that is returned, and the frame behind the call, in which the
  -- bytes from `hlen` to `end` are what `open_in_place` left of them.
  abbrev pub open_validated_in_place :
      List ℕ
      → List ℕ
      → ℕ
      → MeshFrameHeader × ℕ × ℕ
      → Result OpenError (MeshFrameHeader × List ℕ × List ℕ)
  open_validated_in_place frame session_key salt (header, hlen, end) =
      map_err aead (
        open_in_place c session_key salt header.seq (auth_input header)
          (take (end - hlen) (drop hlen frame)) (end - hlen))
      >>= λ r.
          let behind = take hlen frame ++ (r.0 ++ drop end frame) in
          ok (header, take r.1 (drop hlen behind), behind)

  -- What a failed call leaves in the frame is not described, as the source returns the error only.
  unfoldable pub open_frame_in_place :
      List ℕ → List ℕ → List ℕ → ℕ → Result OpenError (MeshFrameHeader × List ℕ × List ℕ)
  open_frame_in_place frame key_dst session_key salt =
      validate_frame frame key_dst >>= open_validated_in_place frame session_key salt
