-- ===== src/Dn42/Wire/Reader/Pieces.antt =====
-- How a stream is cut into pieces makes no difference.
use landscape_rill.Base.{
  ℕ, zero, suc, ◌≡◌, ◌<◌, ◌≤◌, refl, sym, ap, ◌∙◌, false, ◌||◌, not, List, [], ◌∷◌, ◌++◌, length,
  take, drop, ltb, length-append, length-drop, Bool-cases, Result, Result-cases, ok, err, inl, inr,
  arith,
}
use landscape_rill.Base.Slices.{append_assoc}
use landscape_rill.Dn42.Message.{Message}
use landscape_rill.Dn42.Wire.{
  header_len, max_msg_len, bad_marker, bad_length, Failure, refused, u16_at,
}
use landscape_rill.Dn42.Wire.Read.{decode, is_marked}
use landscape_rill.Dn42.Wire.Reader.{
  waits, fails, takes, next_frame, Fed, pushed, round, feed_loop, feed,
}

take-append_le : (n : ℕ) (xs ys : List ℕ) → n ≤ length xs → take n (xs ++ ys) ≡ take n xs
take-append_le zero xs ys h = refl
take-append_le (suc n) [] ys h = ground arith
take-append_le (suc n) (x ∷ xs) ys h =
    ap (λ (t : List ℕ). x ∷ t) (take-append_le n xs ys (omega (arith, h)))

drop-append_le : (n : ℕ) (xs ys : List ℕ) → n ≤ length xs → drop n (xs ++ ys) ≡ drop n xs ++ ys
drop-append_le zero xs ys h = refl
drop-append_le (suc n) [] ys h = ground arith
drop-append_le (suc n) (x ∷ xs) ys h = drop-append_le n xs ys (omega (arith, h))

-- A round that is over does not depend on what comes later.
pub data IsOver (buf later : List ℕ) : Type 0 where
  waiting : next_frame buf ≡ waits → IsOver buf later
  failing :
      (e : Failure)
      → next_frame buf ≡ fails e
      → next_frame (buf ++ later) ≡ fails e
      → IsOver buf later
  taking :
      (m : Message) (len : ℕ)
      → next_frame buf ≡ takes m len
      → next_frame (buf ++ later) ≡ takes m len
      → 19 ≤ len
      → len ≤ length buf
      → IsOver buf later

pub next_frame-IsOver : (buf later : List ℕ) → IsOver buf later
unfolding next_frame
next_frame-IsOver buf later = elim (Bool-cases (ltb (length buf) header_len)) [
  | inl short ↦ waiting (rw short)
  | inr long ↦
      let l = length-append buf later in
      let long' : ltb (length (buf ++ later)) header_len ≡ false = ground arith in
      let mark : take 16 (buf ++ later) ≡ take 16 buf =
        take-append_le 16 buf later (ground arith) in
      let size : take 2 (drop 16 (buf ++ later)) ≡ take 2 (drop 16 buf) =
        ap (λ t. take 2 t) (drop-append_le 16 buf later (ground arith))
        ∙ take-append_le 2 (drop 16 buf) later (let d = length-drop 16 buf in ground arith) in
      elim (Bool-cases (not (is_marked buf))) [
        | inl bad ↦ failing (refused bad_marker) (rw (long, bad)) (rw (long', mark, bad))
        | inr good ↦
            elim (Bool-cases (ltb (u16_at 16 buf) header_len || ltb max_msg_len (u16_at 16 buf))) [
              | inl odd ↦
                  failing (refused (bad_length (u16_at 16 buf))) (rw (long, good, odd))
                    (rw (long', mark, good, size, odd))
              | inr fits ↦ elim (Bool-cases (ltb (length buf) (u16_at 16 buf))) [
                | inl part ↦ waiting (rw (long, good, fits, part))
                | inr whole ↦
                    let whole' : ltb (length (buf ++ later)) (u16_at 16 buf) ≡ false =
                      ground arith in
                    let frame = take-append_le (u16_at 16 buf) buf later (ground arith) in
                    elim (Result-cases (decode (take (u16_at 16 buf) buf))) [
                      | inl (m, d) ↦
                          taking m (u16_at 16 buf) (rw (long, good, fits, whole, d))
                            (rw (long', mark, good, size, fits, whole', frame, d)) (ground arith)
                            (ground arith)
                      | inr (e, d) ↦
                          failing e (rw (long, good, fits, whole, d))
                            (rw (long', mark, good, size, fits, whole', frame, d))
                    ]
              ]
            ]
      ]
]

-- With more fuel than the buffer has bytes the loop does not depend on the fuel.
pub feed_loop_enough :
    (f g : ℕ) (buf : List ℕ) → length buf < f → length buf < g → feed_loop f buf ≡ feed_loop g buf
unfolding feed_loop
feed_loop_enough zero g buf h k = ground arith
feed_loop_enough (suc f) zero buf h k = ground arith
feed_loop_enough (suc f) (suc g) buf h k = elim (next_frame-IsOver buf []) [
  | waiting e ↦ rw e
  | failing x e e' ↦ rw e
  | taking m len e e' low high ↦
      let l = length-drop len buf in
      rw e (
        ap (λ (r : Fed). pushed m r)
          (feed_loop_enough f g (drop len buf) (omega (arith, l, low, high, h))
            (omega (arith, l, low, high, k))))
]

-- The next piece, where the stream still goes on; behind an error nothing is read.
abbrev pub after : Result Failure (Unit {0}) → Fed → List ℕ → Fed
after (ok _) r piece =
    let s = feed r.rest piece in
    record { rest = s.rest; messages = r.messages ++ s.messages; result = s.result }
after (err e) r piece = record r { rest = r.rest ++ piece }

after-pushed :
    (x : Result Failure (Unit {0})) (m : Message) (r : Fed) (piece : List ℕ)
    → pushed m (after x r piece) ≡ after x (pushed m r) piece
after-pushed (ok _) m r piece = refl
after-pushed (err e) m r piece = refl

-- The loop over a buffer and what comes later.
abbrev continued : Fed → List ℕ → Fed
continued r piece = after r.result r piece

feed_loop-append :
    (f : ℕ) (buf later : List ℕ)
    → length (buf ++ later) < f
    → feed_loop f (buf ++ later) ≡ continued (feed_loop f buf) later
unfolding feed_loop feed
feed_loop-append zero buf later h = ground arith
feed_loop-append (suc f) buf later h = elim (next_frame-IsOver buf later) [
  | waiting e ↦
      feed_loop_enough (suc f) (suc (length (buf ++ later))) (buf ++ later) h (omega arith)
      ∙ ap (λ x. continued (round x buf (feed_loop f)) later) (sym e)
  | failing x e e' ↦
      ap (λ x. round x (buf ++ later) (feed_loop f)) e'
      ∙ ap (λ x. continued (round x buf (feed_loop f)) later) (sym e)
  | taking m len e e' low high ↦
      let l = length-drop len buf in
      let total = length-append buf later in
      let left = length-append (drop len buf) later in
      ap (λ x. round x (buf ++ later) (feed_loop f)) e'
      ∙ ap (λ b. pushed m (feed_loop f b)) (drop-append_le len buf later high)
      ∙ ap (λ (r : Fed). pushed m r)
          (feed_loop-append f (drop len buf) later (omega (arith, l, low, high, h, total, left)))
      ∙ after-pushed (feed_loop f (drop len buf)).result m (feed_loop f (drop len buf)) later
      ∙ ap (λ x. continued (round x buf (feed_loop f)) later) (sym e)
]

-- Feeding a piece that was put together is feeding its parts in turn: the same messages come out in
-- the same order, the same bytes are left, and an error, a panic included, is met at the same place.
pub feed-append :
    (buf piece later : List ℕ)
    → feed buf (piece ++ later) ≡ (let r = feed buf piece in after r.result r later)
unfolding feed
feed-append buf piece later =
    let whole : buf ++ (piece ++ later) ≡ (buf ++ piece) ++ later =
      sym (append_assoc buf piece later) in
    let front = length-append (buf ++ piece) later in
    let fuel = suc (length ((buf ++ piece) ++ later)) in
    ap (λ b. feed_loop (suc (length b)) b) whole
    ∙ feed_loop-append fuel (buf ++ piece) later (omega arith)
    ∙ ap (λ r. continued r later)
        (feed_loop_enough fuel (suc (length (buf ++ piece))) (buf ++ piece) (omega (arith, front))
          (omega arith))
