-- ===== src/Base/Layout.antt =====
-- Byte layouts: the fields of a packed big-endian record, by their widths in bytes.
use mathlib.Core.Path.{◌≡◌, refl, sym, ap, ◌∙◌}
use Prim.Native.Nat.{ℕ, ◌≤◌, ◌+◌, ◌<◌, ◌^◌}
use mathlib.Core.List.{List, [], ◌∷◌, ◌++◌}
use native.Mathlib.Omega.{arith}
use landscape_rill.Base.Lists.{
  All, length-take, length-drop, length, take, drop, take-append, drop-append, length-append,
}
use landscape_rill.Base.Slices.{append_assoc, take-add, take-All, drop-All}
use landscape_rill.Base.Bytes.{
  IsByte, be_bytes-be_value, be_bytes, be_value, be_value-be_bytes, length-be_bytes,
}

-- One number for each width.
abbrev pub Fields : List ℕ → Type 0
Fields [] = Unit
Fields (w ∷ ws) = ℕ × Fields ws

abbrev pub size : List ℕ → ℕ
size [] = 0
size (w ∷ ws) = w + size ws

-- Each number fits its width.
abbrev pub IsFitting : (ws : List ℕ) → Fields ws → Type 0
IsFitting [] f = Unit
IsFitting (w ∷ ws) f = (f.0 < 256 ^ w) × IsFitting ws f.1

abbrev pub put : (ws : List ℕ) → Fields ws → List ℕ
put [] f = []
put (w ∷ ws) f = be_bytes w f.0 ++ put ws f.1

abbrev pub get : (ws : List ℕ) → List ℕ → Fields ws
get [] bs = tt
get (w ∷ ws) bs = (be_value (take w bs), get ws (drop w bs))

pub length-put : (ws : List ℕ) (f : Fields ws) → length (put ws f) ≡ size ws
length-put [] f = refl
length-put (w ∷ ws) f =
    omega
      (arith, length-append (be_bytes w f.0) (put ws f.1), length-be_bytes w f.0, length-put ws f.1)

take-be_bytes : (w n : ℕ) (ys : List ℕ) → take w (be_bytes w n ++ ys) ≡ be_bytes w n
take-be_bytes w n ys =
    ap (λ k. take k (be_bytes w n ++ ys)) (sym (length-be_bytes w n))
    ∙ take-append (be_bytes w n) ys

drop-be_bytes : (w n : ℕ) (ys : List ℕ) → drop w (be_bytes w n ++ ys) ≡ ys
drop-be_bytes w n ys =
    ap (λ k. drop k (be_bytes w n ++ ys)) (sym (length-be_bytes w n))
    ∙ drop-append (be_bytes w n) ys

-- The fields that were put come back, whatever follows them.
pub get-put :
    (ws : List ℕ) (f : Fields ws) (rest : List ℕ) → IsFitting ws f → get ws (put ws f ++ rest) ≡ f
get-put [] f rest h = refl
get-put (w ∷ ws) f rest h =
    let whole = append_assoc (be_bytes w f.0) (put ws f.1) rest in
    let later = put ws f.1 ++ rest in
    ap (λ (bs : List ℕ). (be_value (take w bs), get ws (drop w bs))) whole
    ∙ ap (λ (b : List ℕ). (be_value b, get ws (drop w (be_bytes w f.0 ++ later))))
        (take-be_bytes w f.0 later)
    ∙ ap (λ (b : List ℕ). (be_value (be_bytes w f.0), get ws b)) (drop-be_bytes w f.0 later)
    ∙ ap (λ (n : ℕ). (n, get ws later)) (be_value-be_bytes w f.0 h.0)
    ∙ ap (λ (g : Fields ws). (f.0, g)) (get-put ws f.1 rest h.1)

-- The fields that were got put the bytes back.
pub put-get :
    (ws : List ℕ) (bs : List ℕ)
    → All IsByte bs
    → size ws ≤ length bs
    → put ws (get ws bs) ≡ take (size ws) bs
put-get [] bs b l = refl
put-get (w ∷ ws) bs b l =
    let fits : length (take w bs) ≡ w = omega (arith, length-take w bs, l) in
    let left : size ws ≤ length (drop w bs) = omega (arith, length-drop w bs, l) in
    let digits : be_bytes w (be_value (take w bs)) ≡ take w bs =
      ap (λ k. be_bytes k (be_value (take w bs))) (sym fits)
      ∙ be_bytes-be_value (take w bs) (take-All IsByte w bs b) in
    let others = put-get ws (drop w bs) (drop-All IsByte w bs b) left in
    ap (λ (d : List ℕ). d ++ put ws (get ws (drop w bs))) digits
    ∙ ap (λ (o : List ℕ). take w bs ++ o) others
    ∙ sym (take-add w (size ws) bs)
