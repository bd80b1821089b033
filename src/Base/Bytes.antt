-- ===== src/Base/Bytes.antt =====
-- Big-endian byte strings: `to_be_bytes` and `from_be_bytes` at every width.
use Prim.Native.Nat.{ℕ, zero, suc, ◌+◌, ◌*◌, ◌/◌, ◌%◌, ◌^◌, ◌<◌}
use mathlib.Core.Path.{◌≡◌, refl, sym, ap, ◌∙◌}
use mathlib.Core.List.{List, [], ◌∷◌}
use native.Mathlib.Omega.{arith}
use native.Mathlib.Nat.{div-add-mod', pow-suc, mod-lt, one-le-pow}
use native.Mathlib.Nat.{mul-add-div_right, mul-add-mod_self_right, div-eq_of_lt, mod-eq_of_lt}
use landscape_rill.Base.Lists.{length, All}

abbrev pub IsByte : ℕ → Type 0
IsByte b = b < 256

-- `n.to_be_bytes()` of a `8 * k`-bit number.
abbrev pub be_bytes : ℕ → ℕ → List ℕ
be_bytes zero n = []
be_bytes (suc k) n = (n / 256 ^ k % 256) ∷ be_bytes k n

-- `from_be_bytes`.
abbrev pub be_value : List ℕ → ℕ
be_value [] = 0
be_value (b ∷ bs) = b * 256 ^ length bs + be_value bs

pub length-be_bytes : (k n : ℕ) → length (be_bytes k n) ≡ k
length-be_bytes zero n = refl
length-be_bytes (suc k) n = ap suc (length-be_bytes k n)

pub be_bytes-IsByte : (k n : ℕ) → All IsByte (be_bytes k n)
be_bytes-IsByte zero n = tt
be_bytes-IsByte (suc k) n = (omega arith, be_bytes-IsByte k n)

pub be_value-lt : (bs : List ℕ) → All IsByte bs → be_value bs < 256 ^ length bs
be_value-lt [] h = omega arith
be_value-lt (b ∷ bs) h = rw (pow-suc 256 (length bs)) (grind (arith, be_value-lt bs h.1, h.0))

pow_pos : (k : ℕ) → 0 < 256 ^ k
pow_pos k = one-le-pow k 256 (omega arith)

-- A digit and the digits below it.
mod_split : (n a : ℕ) → 0 < a → n / a % 256 * a + n % a ≡ n % (a * 256)
mod_split n a h =
    let q = n / a in
    let low : q % 256 * a + n % a < a * 256 = grind (arith, mod-lt n h, mod-lt q {m = 256}) in
    let whole : q / 256 * (a * 256) + (q % 256 * a + n % a) ≡ n =
      omega (arith, div-add-mod' n a, ap (λ (t : ℕ). t * a) (div-add-mod' q 256)) in
    sym (mod-eq_of_lt low)
    ∙ sym (mul-add-mod_self_right (q / 256) (a * 256) (q % 256 * a + n % a))
    ∙ ap (λ (t : ℕ). t % (a * 256)) whole

pub be_value-be_bytes_mod : (k n : ℕ) → be_value (be_bytes k n) ≡ n % 256 ^ k
be_value-be_bytes_mod zero n = omega arith
be_value-be_bytes_mod (suc k) n =
    rw (length-be_bytes k n, be_value-be_bytes_mod k n, pow-suc 256 k)
      (mod_split n (256 ^ k) (pow_pos k))

-- A number that fits is read back from its bytes.
pub be_value-be_bytes : (k n : ℕ) → n < 256 ^ k → be_value (be_bytes k n) ≡ n
be_value-be_bytes k n h = be_value-be_bytes_mod k n ∙ mod-eq_of_lt h

-- Only the low digits count.
be_bytes-add_mul : (k n m : ℕ) → be_bytes k (m * 256 ^ k + n) ≡ be_bytes k n
be_bytes-add_mul zero n m = refl
be_bytes-add_mul (suc k) n m =
    let e : m * 256 ^ suc k ≡ m * 256 * 256 ^ k =
      omega (arith, ap (λ (t : ℕ). m * t) (pow-suc 256 k)) in
    rw (e, be_bytes-add_mul k n (m * 256), mul-add-div_right (pow_pos k) (m * 256) n)
      (ap (λ (t : ℕ). t ∷ be_bytes k n) (omega arith))

-- Bytes are written back as they were read.
pub be_bytes-be_value : (bs : List ℕ) → All IsByte bs → be_bytes (length bs) (be_value bs) ≡ bs
be_bytes-be_value [] h = refl
be_bytes-be_value (b ∷ bs) h =
    let fits = be_value-lt bs h.1 in
    rw
      (
        be_bytes-add_mul (length bs) (be_value bs) b,
        be_bytes-be_value bs h.1,
        mul-add-div_right (pow_pos (length bs)) b (be_value bs),
        div-eq_of_lt fits,
      )
      (ap (λ (t : ℕ). t ∷ bs) (omega (arith, h.0)))
