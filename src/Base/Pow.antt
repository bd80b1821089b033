-- ===== src/Base/Pow.antt =====
-- Powers of two, and shifts as division and multiplication by them.
use Prim.Native.Nat.{ℕ, zero, suc, ◌+◌, ◌-◌, ◌*◌, ◌/◌, ◌^◌, ◌≤◌, ◌<◌}
use mathlib.Core.Path.{◌≡◌, ap, ◌∙◌}
use mathlib.Core.Logic.{◌↔◌}
use native.Mathlib.Omega.{arith}
use native.Mathlib.Nat.{
  pow-zero, pow-suc, one-le-pow, add-zero, add-suc, mul_assoc, div-eq_of_lt-le,
}
use native.Mathlib.Nat.{div-mul-le_self, lt-div-mul-add}

pub pow-add : (a m n : ℕ) → a ^ (m + n) ≡ a ^ m * a ^ n
pow-add a m zero = rw (add-zero, pow-zero) (omega arith)
pow-add a m (suc n) =
    rw (add-suc, pow-suc, pow-add a m n, pow-suc a n) (mul_assoc (a ^ m) (a ^ n) a)

pub two_pow_pos : (k : ℕ) → 0 < 2 ^ k
two_pow_pos k = one-le-pow k 2 (omega arith)

pub two_pow_split : (k n : ℕ) → k ≤ n → 2 ^ n ≡ 2 ^ k * 2 ^ (n - k)
two_pow_split k n h =
    let e : n ≡ k + (n - k) = omega arith in ap (λ (t : ℕ). 2 ^ t) e ∙ pow-add 2 k (n - k)

pub two_pow_mono : (k n : ℕ) → k ≤ n → 2 ^ k ≤ 2 ^ n
two_pow_mono k n h = grind (arith, two_pow_split k n h, two_pow_pos (n - k), two_pow_pos k)

-- A quotient names the block that holds the number.
pub div-eq_iff : (x s d : ℕ) → 0 < d → (x / d ≡ s) ↔ ((s * d ≤ x) × (x < s * d + d))
div-eq_iff x s d h = (
  λ e. (rw (← e) (div-mul-le_self x d), rw (← e) (lt-div-mul-add h)),
  λ b. div-eq_of_lt-le d b.0 (omega (arith, b.1)),
)
