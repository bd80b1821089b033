-- ===== src/Frame/Sealed/InPlace.antt =====
-- Opening a frame in its buffer.
use landscape_rill.Base.{
  ℕ, ◌+◌, ◌-◌, ◌≡◌, ◌≤◌, refl, sym, ap, ◌∙◌, ◌==◌, ◌||◌, not, Bool, true, false, List, ◌++◌, length,
  take, drop, length-take, length-drop, ltb, Bool-cases, Result, Result-cases, ok, err, ◌>>=◌, ◌>>◌,
  guard, inl, inr, arith, take-append-drop,
}
use landscape_rill.Base.Slices.{take-append_at, drop-append_at, drop-front, drop-add, append_assoc}
use landscape_rill.Base.Text.{text_eq}
use landscape_rill.Crypto.{Cipher, AeadError, IsInPlace, nonce, tag_len, open_in_place, open_sealed}
use landscape_rill.Frame.Header.{MeshFrameHeader, header_len, frame_version, decode, auth_input}
use landscape_rill.Frame.Sealed.{
  map_err, aead, version_error, route_mac_error, truncated_payload, validate_frame, open_validated,
  open_frame, open_validated_in_place, open_frame_in_place,
}
use landscape_rill.Frame.Sealed.Relay.{map_ok}

-- The frame with the bytes from the end of the header on replaced by a payload, as many as it has.
abbrev pub overwritten : List ℕ → List ℕ → List ℕ
overwritten frame payload =
    take header_len frame ++ (payload ++ drop (header_len + length payload) frame)

-- What is opened, with the frame in which its payload is written.
abbrev pub with_frame : List ℕ → MeshFrameHeader × List ℕ → MeshFrameHeader × List ℕ × List ℕ
with_frame frame (header, payload) = (header, payload, overwritten frame payload)

module _ (c : Cipher) (in_place : IsInPlace c) (session_key : List ℕ) (salt : ℕ)
    (h : MeshFrameHeader) (front body rest : List ℕ) where
  -- The two ways to end, from the buffer and the length that `open_in_place` gives.
  abbrev returned : List ℕ × ℕ → MeshFrameHeader × List ℕ × List ℕ
  returned r = let behind = front ++ (r.0 ++ rest) in (h, take r.1 (drop header_len behind), behind)

  abbrev copied : List ℕ → MeshFrameHeader × List ℕ × List ℕ
  copied p = (h, p, front ++ (p ++ drop (length p) (body ++ rest)))

  returned-copied :
      (plain : List ℕ) (n : ℕ)
      → length front ≡ header_len
      → n ≤ length body
      → length plain ≡ n
      → returned (plain ++ drop n body, n) ≡ copied (take n (plain ++ drop n body))
  returned-copied plain n f l e =
      let whole : take n (plain ++ drop n body) ≡ plain = take-append_at plain (drop n body) n e in
      let tail : drop (length plain) (body ++ rest) ≡ drop n body ++ rest =
        ap (λ k. drop k (body ++ rest)) e ∙ drop-front body rest n l in
      let one = append_assoc plain (drop n body) rest in
      let slice : take n (drop header_len (front ++ (plain ++ (drop n body ++ rest)))) ≡ plain =
        ap (take n) (drop-append_at front (plain ++ (drop n body ++ rest)) header_len f)
        ∙ take-append_at plain (drop n body ++ rest) n e in
      let behind = λ (t : List ℕ). front ++ t in
      ap (λ (t : List ℕ). (h, take n (drop header_len (front ++ t)), front ++ t)) one
      ∙ ap (λ (t : List ℕ). (h, t, front ++ (plain ++ (drop n body ++ rest)))) slice
      ∙ ap (λ (t : List ℕ). (h, plain, front ++ (plain ++ t))) (sym tail)
      ∙ ap copied (sym whole)

  body-same :
      length front ≡ header_len
      → (map_err aead (open_in_place c session_key salt h.seq (auth_input h) body (length body))
          >>= λ r. ok (returned r))
        ≡ (map_err aead (open_sealed c session_key salt h.seq (auth_input h) body) >>= λ p.
            ok (copied p))
  unfolding open_sealed open_in_place
  body-same f = elim (Bool-cases (ltb (length body) (length body) || ltb (length body) tag_len)) [
    | inl bad ↦ rw bad refl
    | inr fine ↦
        let n = length body - tag_len in
        let aad = auth_input h in
        let iv = nonce salt h.seq in
        let tag = take tag_len (drop n body) in
        elim (Result-cases (c.decrypt session_key iv aad (take n body) tag)) [
          | inl (plain, d) ↦
              let size : length plain ≡ n = omega (
                arith,
                in_place.sized session_key iv aad (take n body) tag plain d,
                length-take n body,
              ) in
              rw (fine, d)
                (ap (λ (t : MeshFrameHeader × List ℕ × List ℕ). ok t)
                  (returned-copied plain n f (omega arith) size))
          | inr (e, d) ↦ rw (fine, d) refl
        ]
  ]

module _ (mac : List ℕ → List ℕ → List ℕ) (c : Cipher) (in_place : IsInPlace c)
    (frame session_key : List ℕ) (salt : ℕ) where
  -- The bytes behind the header are the body and what follows it.
  split_frame :
      (len : ℕ)
      → take (header_len + len - header_len) (drop header_len frame)
          ++ drop (header_len + len) frame
        ≡ drop header_len frame
  split_frame len =
      let e : header_len + len - header_len ≡ len = omega arith in
      let body = drop header_len frame in
      ap (λ (n : ℕ). take n body ++ drop (header_len + len) frame) e
      ∙ ap (λ (t : List ℕ). take len body ++ t) (drop-add header_len len frame)
      ∙ take-append-drop len body

  mapped :
      (h : MeshFrameHeader) (body rest : List ℕ) (x : Result AeadError (List ℕ))
      → body ++ rest ≡ drop header_len frame
      → (map_err aead x >>= λ p.
          ok (copied c in_place session_key salt h (take header_len frame) body rest p))
        ≡ map_ok (with_frame frame) (map_err aead x >>= λ (p : List ℕ). ok (h, p))
  mapped h body rest (ok p) e =
      ap (λ (t : List ℕ). ok (h, p, take header_len frame ++ (p ++ t)))
        (ap (drop (length p)) e ∙ sym (drop-add header_len (length p) frame))
  mapped h body rest (err e) _ = refl

  payload-same :
      (h : MeshFrameHeader)
      → ltb (length frame) (header_len + h.len) ≡ false
      → open_validated_in_place mac c frame session_key salt (h, header_len, header_len + h.len)
        ≡ map_ok
            (with_frame frame)
            (open_validated mac c frame session_key salt (h, header_len, header_len + h.len))
  payload-same h l =
      let n = header_len + h.len - header_len in
      let front = take header_len frame in
      let body = take n (drop header_len frame) in
      let rest = drop (header_len + h.len) frame in
      let long : header_len + h.len ≤ length frame = ground arith in
      let exact : n ≡ length body =
        omega (arith, long, length-take n (drop header_len frame), length-drop header_len frame) in
      let front_length : length front ≡ header_len =
        omega (arith, long, length-take header_len frame) in
      ap
        (λ (k : ℕ).
          map_err aead (open_in_place c session_key salt h.seq (auth_input h) body k) >>= λ r.
          ok (returned c in_place session_key salt h front body rest r))
        exact
      ∙ body-same c in_place session_key salt h front body rest front_length
      ∙ mapped h body rest (open_sealed c session_key salt h.seq (auth_input h) body)
          (split_frame h.len)

  tests-same :
      (h : MeshFrameHeader) (v m : Bool)
      → ((guard v version_error
            >> (guard m route_mac_error
                >> (guard (not (ltb (length frame) (header_len + h.len))) truncated_payload
                    >> ok (h, header_len, header_len + h.len))))
          >>= open_validated_in_place mac c frame session_key salt)
        ≡ map_ok (with_frame frame) (
            (guard v version_error
              >> (guard m route_mac_error
                  >> (guard (not (ltb (length frame) (header_len + h.len))) truncated_payload
                      >> ok (h, header_len, header_len + h.len))))
            >>= open_validated mac c frame session_key salt)
  tests-same h true true = elim (Bool-cases (ltb (length frame) (header_len + h.len))) [
    | inl short ↦ rw short refl
    | inr long ↦ rw long (payload-same h long)
  ]
  tests-same h true false = refl
  tests-same h false m = refl

-- Opening a frame in its buffer gives what opening it into a new buffer gives, error or header and
-- payload, by a slice of the buffer; and the buffer behind a success is the frame with the payload
-- written behind the header, and its other bytes as they were, where decryption in place keeps the
-- length.
pub open_frame_in_place-open_frame :
    (mac : List ℕ → List ℕ → List ℕ) (c : Cipher)
    → IsInPlace c
    → (frame key_dst session_key : List ℕ) (salt : ℕ)
    → open_frame_in_place mac c frame key_dst session_key salt
      ≡ map_ok (with_frame frame) (open_frame mac c frame key_dst session_key salt)
unfolding open_frame open_frame_in_place validate_frame
open_frame_in_place-open_frame mac c in_place frame key_dst session_key salt =
    elim (Result-cases (decode frame)) [
      | inl (h, d) ↦ rw d (
          tests-same mac c in_place frame session_key salt h (h.version == frame_version)
            (text_eq (mac key_dst (auth_input h)) h.route_mac))
      | inr (e, d) ↦ rw d refl
    ]
