-- ===== src/Dn42/Wire/Reader/Ends.antt =====
-- The loop of `feed` ends.
use landscape_rill.Base.{
  ℕ, zero, suc, ◌≡◌, ◌≢◌, ◌<◌, sym, ap, ◌∙◌, ◌||◌, not, List, [], ◌++◌, length, length-drop, take,
  drop, ltb, Bool-cases, Result, ok, err, inl, inr, arith,
}
use landscape_rill.Dn42.Message.{Message}
use landscape_rill.Dn42.Wire.{
  header_len, max_msg_len, bad_marker, bad_length, Failure, refused, out_of_fuel, u16_at,
}
use landscape_rill.Dn42.Wire.Read.{decode, is_marked}
use landscape_rill.Dn42.Wire.Read.Ends.{decode-ends}
use landscape_rill.Dn42.Wire.Reader.Pieces.{waiting, failing, taking, next_frame-IsOver}
use landscape_rill.Dn42.Wire.Reader.{waits, fails, decoded, next_frame, feed_loop, feed}

decoded-ends :
    (r : Result Failure Message) (len : ℕ) → r ≢ err out_of_fuel → decoded r len ≢ fails out_of_fuel
decoded-ends (ok m) len n h = cc
decoded-ends (err e) len n h = n (let same : e ≡ out_of_fuel = cc in ap err same)

next_frame-ends : (buf : List ℕ) → next_frame buf ≢ fails out_of_fuel
unfolding next_frame
next_frame-ends buf h = elim (Bool-cases (ltb (length buf) header_len)) [
  | inl short ↦ let e : next_frame buf ≡ waits = rw short in cc
  | inr long ↦ elim (Bool-cases (not (is_marked buf))) [
    | inl bad ↦ let e : next_frame buf ≡ fails (refused bad_marker) = rw (long, bad) in cc
    | inr good ↦
        elim (Bool-cases (ltb (u16_at 16 buf) header_len || ltb max_msg_len (u16_at 16 buf))) [
          | inl odd ↦
              let e : next_frame buf ≡ fails (refused (bad_length (u16_at 16 buf))) =
                rw (long, good, odd) in
              cc
          | inr fits ↦ elim (Bool-cases (ltb (length buf) (u16_at 16 buf))) [
            | inl part ↦ let e : next_frame buf ≡ waits = rw (long, good, fits, part) in cc
            | inr whole ↦
                let e : next_frame buf
                    ≡ decoded (decode (take (u16_at 16 buf) buf)) (u16_at 16 buf) =
                  rw (long, good, fits, whole) in
                decoded-ends (decode (take (u16_at 16 buf) buf)) (u16_at 16 buf)
                  (decode-ends (take (u16_at 16 buf) buf)) (sym e ∙ h)
          ]
        ]
  ]
]

feed_loop-ends :
    (f : ℕ) (buf : List ℕ) → length buf < f → (feed_loop f buf).result ≢ err out_of_fuel
unfolding feed_loop
feed_loop-ends zero buf l h = ground arith
feed_loop-ends (suc f) buf l h = elim (next_frame-IsOver buf []) [
  | waiting e ↦ let done : (feed_loop (suc f) buf).result ≡ ok tt = rw e in cc
  | failing x e e' ↦
      let done : (feed_loop (suc f) buf).result ≡ err x = rw e in
      let same : x ≡ out_of_fuel = cc in next_frame-ends buf (e ∙ ap fails same)
  | taking m len e e' low high ↦
      let d = length-drop len buf in
      let next : (feed_loop (suc f) buf).result ≡ (feed_loop f (drop len buf)).result = rw e in
      feed_loop-ends f (drop len buf) (omega (arith, d, low, high, l)) (sym next ∙ h)
]

-- The loop of `feed` and the loops of `decode` end: a round for each byte of the buffer is enough.
pub feed-ends : (buf piece : List ℕ) → (feed buf piece).result ≢ err out_of_fuel
unfolding feed
feed-ends buf piece h = feed_loop-ends (suc (length (buf ++ piece))) (buf ++ piece) (omega arith) h
