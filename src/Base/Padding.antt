-- ===== src/Base/Padding.antt =====
-- The leading bytes of a number, and a number from its leading bytes.
use mathlib.Core.Path.{◌≡◌, refl, sym, ap, ◌∙◌, subst}
use Prim.Native.Nat.{ℕ, zero, suc, ◌+◌, ◌-◌, ◌*◌, ◌/◌, ◌%◌, ◌^◌, ◌≤◌, ◌<◌, ◌∣◌}
use mathlib.Core.List.{List, [], ◌∷◌, ◌++◌}
use native.Mathlib.Nat.{
  div-div-eq-div-mul, one-le-pow, div-add-mod', div-lt_iff_lt-mul, mod-mod_of_dvd, zero-mod,
  dvd-mul_right,
}
use native.Mathlib.Omega.{arith}
use landscape_rill.Base.Lists.{length, take, replicate, length-append}
use landscape_rill.Base.Slices.{length-replicate}
use landscape_rill.Base.Bytes.{be_bytes, be_value, be_value-be_bytes}
use landscape_rill.Base.Pow.{pow-add}

pow_pos : (k : ℕ) → 0 < 256 ^ k
pow_pos k = one-le-pow k 256 (omega arith)

pub take-be_bytes : (n j v : ℕ) → j ≤ n → take j (be_bytes n v) ≡ be_bytes j (v / 256 ^ (n - j))
take-be_bytes n zero v h = refl
take-be_bytes zero (suc j) v h = ground arith
take-be_bytes (suc n) (suc j) v h =
    let low : suc n - suc j ≡ n - j = omega arith in
    let split : 256 ^ n ≡ 256 ^ (n - j) * 256 ^ j =
      ap (λ k. 256 ^ k) (omega (arith, h)) ∙ pow-add 256 (n - j) j in
    let first : v / 256 ^ n ≡ v / 256 ^ (n - j) / 256 ^ j =
      ap (λ d. v / d) split ∙ sym (div-div-eq-div-mul v (256 ^ (n - j)) (256 ^ j)) in
    ap (λ d. (d % 256) ∷ take j (be_bytes n v)) first
    ∙ ap (λ t. (v / 256 ^ (n - j) / 256 ^ j % 256) ∷ t) (take-be_bytes n j v (omega (arith, h)))
    ∙ ap (λ k. be_bytes (suc j) (v / 256 ^ k)) (sym low)

be_value-replicate : (m : ℕ) → be_value (replicate m 0) ≡ 0
be_value-replicate zero = refl
be_value-replicate (suc m) = omega (arith, be_value-replicate m)

pub be_value-zeros : (xs : List ℕ) (m : ℕ) → be_value (xs ++ replicate m 0) ≡ be_value xs * 256 ^ m
be_value-zeros [] m = omega (arith, be_value-replicate m)
be_value-zeros (b ∷ xs) m =
    let size : length (xs ++ replicate m 0) ≡ length xs + m =
      omega (arith, length-append xs (replicate m 0), length-replicate {A = ℕ} m 0) in
    let power : 256 ^ length (xs ++ replicate m 0) ≡ 256 ^ length xs * 256 ^ m =
      ap (λ k. 256 ^ k) size ∙ pow-add 256 (length xs) m in
    rw (power, be_value-zeros xs m) (grind arith)

-- A number whose low bytes are zero is the value of its leading bytes, padded.
pub be_value_padded :
    (n o v : ℕ)
    → o ≤ n
    → v < 256 ^ n
    → v % 256 ^ (n - o) ≡ 0
    → be_value (take o (be_bytes n v) ++ replicate (n - o) 0) ≡ v
be_value_padded n o v h fits low =
    let d = 256 ^ (n - o) in
    let split : 256 ^ n ≡ 256 ^ o * d =
      ap (λ k. 256 ^ k) (omega (arith, h)) ∙ pow-add 256 o (n - o) in
    let whole : v / d * d ≡ v = omega (arith, div-add-mod' v d, low) in
    let small : v / d < 256 ^ o =
      (div-lt_iff_lt-mul (pow_pos (n - o))).1 (subst (λ k. v < k) split fits) in
    be_value-zeros (take o (be_bytes n v)) (n - o)
    ∙ ap (λ t. be_value t * d) (take-be_bytes n o v h)
    ∙ ap (λ x. x * d) (be_value-be_bytes o (v / d) small)
    ∙ whole

pub octets_pow : (k : ℕ) → 256 ^ k ≡ 2 ^ (8 * k)
octets_pow zero = refl
octets_pow (suc k) =
    let step : 2 ^ (8 + 8 * k) ≡ 2 ^ 8 * 2 ^ (8 * k) = pow-add 2 8 (8 * k) in
    let e : 8 * suc k ≡ 8 + 8 * k = omega arith in
    omega (arith, octets_pow k, step, ap (λ n. 2 ^ n) e)

-- The zeros behind the first `len` bits of sixteen bytes fill the bytes behind the first `o`.
pub whole_octets :
    (x len o : ℕ) → len ≤ 8 * o → o ≤ 16 → x % 2 ^ (128 - len) ≡ 0 → x % 256 ^ (16 - o) ≡ 0
whole_octets x len o long short low =
    let b = 2 ^ (8 * o - len) in
    let e : 2 ^ (128 - len) ≡ 256 ^ (16 - o) * b =
      ap (λ n. 2 ^ n) (omega (arith, long, short))
      ∙ pow-add 2 (8 * (16 - o)) (8 * o - len)
      ∙ ap (λ d. d * b) (sym (octets_pow (16 - o))) in
    sym (
      mod-mod_of_dvd (256 ^ (16 - o)) x
        (subst (λ d. 256 ^ (16 - o) ∣ d) (sym e) (dvd-mul_right (256 ^ (16 - o)) b)))
    ∙ ap (λ r. r % 256 ^ (16 - o)) low
    ∙ zero-mod (256 ^ (16 - o))
