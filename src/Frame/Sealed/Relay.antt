-- ===== src/Frame/Sealed/Relay.antt =====
-- A relay lowers the TTL and signs nothing again.
use landscape_rill.Base.{
  ℕ, zero, suc, ◌+◌, ◌-◌, ◌%◌, ◌≡◌, refl, ap, ◌∙◌, ◌==◌, not, Bool, true, false, List, [], ◌∷◌,
  length, take, drop, set, ltb, Bool-cases, Result, Result-cases, ok, err, ◌>>=◌, ◌>>◌, guard, inl,
  inr,
}
use landscape_rill.Base.Text.{text_eq}
use landscape_rill.Crypto.{Cipher, AeadError, open_sealed}
use landscape_rill.Frame.Header.{
  MeshFrameHeader, DecodeError, header_len, frame_version, decode, auth_input, decrement_ttl,
  off_ttl,
}
use landscape_rill.Frame.Header.Codec.{decode-decrement_ttl}
use landscape_rill.Frame.Sealed.{
  OpenError, aead, version_error, route_mac_error, truncated_payload, map_err, validate_frame,
  open_validated, open_frame,
}

abbrev pub map_ok {ℓ κ μ} :
    {E : Type ℓ} {A : Type κ} {B : Type μ} → (A → B) → Result E A → Result E B
map_ok f (ok a) = ok (f a)
map_ok f (err e) = err e

-- The header of a relayed frame, with its payload.
abbrev pub relayed : MeshFrameHeader × List ℕ → MeshFrameHeader × List ℕ
relayed (h, payload) = (record h { ttl = (h.ttl + 255) % 256 }, payload)

length-set : (xs : List ℕ) (i v : ℕ) → length (set xs i v) ≡ length xs
length-set [] i v = refl
length-set (x ∷ xs) zero v = refl
length-set (x ∷ xs) (suc i) v = ap suc (length-set xs i v)

length-decrement_ttl : (frame : List ℕ) → length (decrement_ttl frame) ≡ length frame
unfolding decrement_ttl
length-decrement_ttl frame = elim (Bool-cases (ltb (length frame) header_len)) [
  | inl short ↦ rw short
  | inr long ↦ rw long (length-set frame off_ttl _)
]

-- A frame without a whole header is left alone.
decrement_ttl-short :
    (frame : List ℕ) (e : DecodeError) → decode frame ≡ err e → decrement_ttl frame ≡ frame
unfolding decrement_ttl decode
decrement_ttl-short frame e d = elim (Bool-cases (ltb (length frame) header_len)) [
  | inl short ↦ rw short
  | inr long ↦ cc (rw long at d)
]

module _ (mac : List ℕ → List ℕ → List ℕ) (c : Cipher) (session_key : List ℕ) (salt : ℕ) where
  abbrev tests :
      Bool → Bool → Bool → MeshFrameHeader × ℕ × ℕ → Result OpenError (MeshFrameHeader × ℕ × ℕ)
  tests v m l x =
      guard v version_error >> (guard m route_mac_error >> (guard l truncated_payload >> ok x))

  opened :
      (x : Result AeadError (List ℕ)) (h : MeshFrameHeader)
      → (map_err aead x >>= λ (p : List ℕ). ok (record h { ttl = (h.ttl + 255) % 256 }, p))
        ≡ map_ok relayed (map_err aead x >>= λ (p : List ℕ). ok (h, p))
  opened (ok p) h = refl
  opened (err e) h = refl

  tests-relayed :
      (frame frame' : List ℕ) (h : MeshFrameHeader) (end : ℕ) (v m l : Bool)
      → auth_input (record h { ttl = (h.ttl + 255) % 256 }) ≡ auth_input h
      → drop header_len frame' ≡ drop header_len frame
      → (tests v m l (record h { ttl = (h.ttl + 255) % 256 }, header_len, end)
          >>= open_validated mac c frame' session_key salt)
        ≡ map_ok relayed
            (tests v m l (h, header_len, end) >>= open_validated mac c frame session_key salt)
  tests-relayed frame frame' h end true true true a d =
      ap
        (λ (body : List ℕ).
          map_err aead (
            open_sealed c session_key salt h.seq
              (auth_input (record h { ttl = (h.ttl + 255) % 256 })) (take (end - header_len) body))
          >>= λ (p : List ℕ). ok (record h { ttl = (h.ttl + 255) % 256 }, p))
        d
      ∙ ap
          (λ (aad : List ℕ).
            map_err aead (
              open_sealed c session_key salt h.seq aad
                (take (end - header_len) (drop header_len frame)))
            >>= λ (p : List ℕ). ok (record h { ttl = (h.ttl + 255) % 256 }, p))
          a
      ∙ opened
          (open_sealed c session_key salt h.seq (auth_input h)
            (take (end - header_len) (drop header_len frame)))
          h
  tests-relayed frame frame' h end true true false a d = refl
  tests-relayed frame frame' h end true false l a d = refl
  tests-relayed frame frame' h end false m l a d = refl

-- What a receiver makes of a frame whose TTL a relay lowered is what it makes of the frame itself,
-- error or payload, but for the TTL in the header that it gives: a relay needs no key.
pub open_frame-decrement_ttl :
    (mac : List ℕ → List ℕ → List ℕ) (c : Cipher) (frame key_dst session_key : List ℕ) (salt : ℕ)
    → open_frame mac c (decrement_ttl frame) key_dst session_key salt
      ≡ map_ok relayed (open_frame mac c frame key_dst session_key salt)
unfolding open_frame validate_frame
open_frame-decrement_ttl mac c frame key_dst session_key salt = elim (Result-cases (decode frame)) [
  | inl (h, d) ↦
      let (lower, input, body) = decode-decrement_ttl frame h d in
      let frame' = decrement_ttl frame in
      let same = length-decrement_ttl frame in
      rw (lower, d, same, input)
        (tests-relayed mac c session_key salt frame frame' h (header_len + h.len)
          (h.version == frame_version) (text_eq (mac key_dst (auth_input h)) h.route_mac)
          (not (ltb (length frame) (header_len + h.len))) input body)
  | inr (e, d) ↦ rw (decrement_ttl-short frame e d, d)
]
