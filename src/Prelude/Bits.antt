-- ===== src/Prelude/Bits.antt =====
-- Powers of two, and `&` against a mask of ones.
use Prim.Native.Nat.{
  ℕ, zero, suc, ◌+◌, ◌-◌, ◌*◌, ◌/◌, ◌%◌, ◌^◌, ◌≤◌, min, bit_and, digits, bit_and-bitwise,
}
use mathlib.Core.Path.{◌≡◌, sym, ap, ap₂, ◌∙◌}
use native.Mathlib.Nat.{pow-suc, mul-add-mod_self_left, mod-eq_of_lt, mod-lt, div-add-mod, zero-mod}
use native.Mathlib.Omega.{arith}

pub pow2-pos : (k : ℕ) → 1 ≤ 2 ^ k
pow2-pos zero = omega arith
pow2-pos (suc k) = omega (arith, pow-suc 2 k, pow2-pos k)

-- One more digit of a remainder by a power of two.
mod-double : (a m : ℕ) → 1 ≤ m → a % (m * 2) ≡ a / 2 % m * 2 + a % 2
mod-double a m h =
    ap (λ n. n % (m * 2)) split
    ∙ mul-add-mod_self_left (m * 2) (a / 2 / m) low
    ∙ mod-eq_of_lt (omega (arith, mod-lt (a / 2) {m = m} h))
  where
    low : ℕ
    low = a / 2 % m * 2 + a % 2

    split : a ≡ m * 2 * (a / 2 / m) + low
    split = omega (arith, ap (λ (n : ℕ). n * 2) (div-add-mod (a / 2) m))

-- A longer mask is an odd number, and half of it is the mask with one digit less.
mask-half : (k : ℕ) → (2 ^ suc k - 1) / 2 ≡ 2 ^ k - 1
mask-half k = omega (arith, pow-suc 2 k, pow2-pos k)

mask_odd : (k : ℕ) → (2 ^ suc k - 1) % 2 ≡ 1
mask_odd k = omega (arith, pow-suc 2 k, pow2-pos k)

-- The digit recursion behind `&`, with any count of digits that is enough for `a`.
digits-mask : (n a k : ℕ) → a ≤ n → digits (λ _. 0) min n a (2 ^ k - 1) ≡ a % 2 ^ k
digits-mask zero a k h = sym (ap (λ n. n % 2 ^ k) none_left ∙ zero-mod (2 ^ k))
  where
    none_left : a ≡ 0
    none_left = omega arith
digits-mask (suc n) zero k h = sym (zero-mod (2 ^ k))
digits-mask (suc n) (suc a) zero h = omega (arith, digits-mask n (suc a / 2) zero (omega arith))
digits-mask (suc n) (suc a) (suc k) h =
    ap₂ (λ m d. digits (λ _. 0) min n (suc a / 2) m * 2 + min (suc a % 2) d) (mask-half k)
      (mask_odd k)
    ∙ omega
        (arith, digits-mask n (suc a / 2) k (omega arith), mod-double (suc a) (2 ^ k) (pow2-pos k))
    ∙ ap (λ m. suc a % m) (sym (pow-suc 2 k))

-- A mask of `k` ones keeps the low `k` bits.
pub bit_and-mask : (k a : ℕ) → bit_and a (2 ^ k - 1) ≡ a % 2 ^ k
bit_and-mask k a = bit_and-bitwise a (2 ^ k - 1) ∙ digits-mask a a k (omega arith)
