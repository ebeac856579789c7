-- ===== src/Base/Bits/Shifts.antt =====
-- Digits of shifts, of remainders by a power of two, of complements; and extensionality.
use Prim.Native.Nat.{ℕ, zero, suc, ◌+◌, ◌-◌, ◌*◌, ◌/◌, ◌%◌, ◌^◌, ◌≤◌, ◌<◌}
use mathlib.Core.Path.{◌≡◌, refl, ap, ◌∙◌}
use mathlib.Core.Bool.{false, not, ◌&&◌}
use native.Mathlib.Omega.{arith}
use native.Mathlib.Nat.{pow-suc, one-le-pow, zero-add, suc-add, mul-one, sub-zero, suc-sub-suc}
use native.Mathlib.Nat.{div-div-eq-div-mul, div-add-mod, div-one, mod-one, mod-lt, mod-eq_of_lt}
use native.Mathlib.Nat.{mul-add-mod_self_left, zero-sub}
use riscv_em.Base.Tests.{◌==◌, ltb}
use riscv_em.Base.Bits.Digits.{test_bit}

pub test_bit-zero : (i : ℕ) → test_bit 0 i ≡ false
test_bit-zero zero = refl
test_bit-zero (suc i) = test_bit-zero i

half_pow : (k : ℕ) → 2 ^ suc k ≡ 2 * 2 ^ k
half_pow k = omega (arith, pow-suc 2 k)

half_pow_div : (k : ℕ) → 2 ^ suc k / 2 ≡ 2 ^ k
half_pow_div k = omega (arith, half_pow k)

half_mul : (x k : ℕ) → x * 2 ^ suc k / 2 ≡ x * 2 ^ k
half_mul x k = omega (arith, ap (λ (t : ℕ). x * t) (half_pow k))

even_mul : (x k : ℕ) → x * 2 ^ suc k % 2 ≡ 0
even_mul x k = omega (arith, ap (λ (t : ℕ). x * t) (half_pow k))

half_shift : (x k : ℕ) → x / 2 ^ suc k ≡ x / 2 / 2 ^ k
half_shift x k = rw (div-div-eq-div-mul, half_pow)

-- The remainder by `2 ^ suc k` is that of the half, with the last digit.
mod_pow_suc : (x k : ℕ) → x % 2 ^ suc k ≡ 2 * (x / 2 % 2 ^ k) + x % 2
mod_pow_suc x k = rw half_pow (
    ap (λ (t : ℕ). t % (2 * 2 ^ k)) whole
    ∙ mul-add-mod_self_left (2 * 2 ^ k) (x / 2 / 2 ^ k) (2 * (x / 2 % 2 ^ k) + x % 2)
    ∙ mod-eq_of_lt (omega (arith, mod-lt (x / 2) (one-le-pow k 2 (omega arith)))))
  where
    whole : x ≡ 2 * 2 ^ k * (x / 2 / 2 ^ k) + (2 * (x / 2 % 2 ^ k) + x % 2)
    whole = omega (arith, div-add-mod (x / 2) (2 ^ k))

pub test_bit-pow : (k i : ℕ) → test_bit (2 ^ k) i ≡ (i == k)
test_bit-pow zero zero = refl
test_bit-pow zero (suc i) = ground (arith, test_bit-zero i)
test_bit-pow (suc k) zero = ground (arith, half_pow k)
test_bit-pow (suc k) (suc i) = rw half_pow_div (test_bit-pow k i ∙ ground arith)

pub test_bit-shl : (x k i : ℕ) → test_bit (x * 2 ^ k) i ≡ not (ltb i k) && test_bit x (i - k)
test_bit-shl x zero i = rw (mul-one, sub-zero) (ground arith)
test_bit-shl x (suc k) zero = rw even_mul (ground arith)
test_bit-shl x (suc k) (suc i) = rw (half_mul, suc-sub-suc) (test_bit-shl x k i ∙ ground arith)

pub test_bit-shr : (x k i : ℕ) → test_bit (x / 2 ^ k) i ≡ test_bit x (k + i)
test_bit-shr x zero i = rw (zero-add, div-one)
test_bit-shr x (suc k) i = rw (half_shift, suc-add) (test_bit-shr (x / 2) k i)

pub test_bit-mod : (x w i : ℕ) → test_bit (x % 2 ^ w) i ≡ ltb i w && test_bit x i
test_bit-mod x zero i = rw mod-one (test_bit-zero i ∙ ground arith)
test_bit-mod x (suc w) zero = ground (arith, mod_pow_suc x w)
test_bit-mod x (suc w) (suc i) = rw half_mod (test_bit-mod (x / 2) w i ∙ ground arith)
  where
    half_mod : x % 2 ^ suc w / 2 ≡ x / 2 % 2 ^ w
    half_mod = omega (arith, mod_pow_suc x w)

-- `2 ^ w - 1 - x` inverts the lowest `w` digits.
pub test_bit-complement :
    (x w i : ℕ) → x < 2 ^ w → test_bit (2 ^ w - 1 - x) i ≡ ltb i w && not (test_bit x i)
test_bit-complement x zero i h = rw zero-sub (test_bit-zero i ∙ ground arith)
test_bit-complement x (suc w) zero h = ground (arith, half_pow w)
test_bit-complement x (suc w) (suc i) h =
    rw half_complement (test_bit-complement (x / 2) w i (omega (arith, half_pow w)) ∙ ground arith)
  where
    half_complement : (2 ^ suc w - 1 - x) / 2 ≡ 2 ^ w - 1 - x / 2
    half_complement = omega (arith, half_pow w)

pub test_bit_above : (x w i : ℕ) → x < 2 ^ w → w ≤ i → test_bit x i ≡ false
test_bit_above x w i h l = ground (arith, test_bit-mod x w i, mod-eq_of_lt h)

-- Numbers with the same digits are equal.
test_bit_ext_fuel : (n x y : ℕ) → x ≤ n → y ≤ n → ((i : ℕ) → test_bit x i ≡ test_bit y i) → x ≡ y
test_bit_ext_fuel zero x y hx hy h = omega arith
test_bit_ext_fuel (suc n) x y hx hy h =
    ground
      (arith, h 0, test_bit_ext_fuel n (x / 2) (y / 2) (omega arith) (omega arith) (λ i. h (suc i)))

pub test_bit_ext : (x y : ℕ) → ((i : ℕ) → test_bit x i ≡ test_bit y i) → x ≡ y
test_bit_ext x y h = test_bit_ext_fuel (x + y) x y (omega arith) (omega arith) h
