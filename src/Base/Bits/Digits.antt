-- ===== src/Base/Bits/Digits.antt =====
-- One digit of `&`, `|` and `^`. The native operations stand for a recursion on digits with fuel.
use Prim.Native.Nat.{ℕ, zero, suc, ◌+◌, ◌*◌, ◌/◌, ◌%◌, ◌≤◌, ◌<◌, min, max}
use Prim.Native.Nat.{bit_and, bit_or, bit_xor, digits, bitwise, differ}
use Prim.Native.Nat.{bit_and-bitwise, bit_or-bitwise, bit_xor-bitwise}
use mathlib.Core.Path.{◌≡◌, refl}
use mathlib.Core.Bool.{Bool, not, ◌&&◌, ◌||◌}
use native.Mathlib.Omega.{arith}
use native.Mathlib.Nat.{le_refl}
use riscv_em.Base.Tests.{◌==◌}

-- Binary digit `i` of `n`.
abbrev pub test_bit : ℕ → ℕ → Bool
test_bit n zero = n % 2 == 1
test_bit n (suc i) = test_bit (n / 2) i

module _ (rest : ℕ → ℕ) (one : ℕ → ℕ → ℕ) where
  enough_fuel : (p q x y : ℕ) → x ≤ p → x ≤ q → digits rest one p x y ≡ digits rest one q x y
  enough_fuel zero zero x y hp hq = refl
  enough_fuel zero (suc q) zero y hp hq = refl
  enough_fuel zero (suc q) (suc x) y hp hq = absurd (omega arith)
  enough_fuel (suc p) zero zero y hp hq = refl
  enough_fuel (suc p) zero (suc x) y hp hq = absurd (omega arith)
  enough_fuel (suc p) (suc q) zero y hp hq = refl
  enough_fuel (suc p) (suc q) (suc x) y hp hq =
      rw (enough_fuel p q (suc x / 2) (y / 2) (omega arith) (omega arith))

  bitwise_split :
      (x y : ℕ)
      → bitwise rest one (suc x) y
        ≡ bitwise rest one (suc x / 2) (y / 2) * 2 + one (suc x % 2) (y % 2)
  bitwise_split x y =
      omega (arith, enough_fuel x (suc x / 2) (suc x / 2) (y / 2) (omega arith) (le_refl _))

pub bit_and_split : (x y : ℕ) → bit_and x y ≡ bit_and (x / 2) (y / 2) * 2 + min (x % 2) (y % 2)
bit_and_split zero y = simp bit_and-bitwise (omega arith)
bit_and_split (suc x) y = simp bit_and-bitwise (bitwise_split (λ b. 0) min x y)

pub bit_or_split : (x y : ℕ) → bit_or x y ≡ bit_or (x / 2) (y / 2) * 2 + max (x % 2) (y % 2)
bit_or_split zero y = simp bit_or-bitwise (omega arith)
bit_or_split (suc x) y = simp bit_or-bitwise (bitwise_split (λ b. b) max x y)

half_and : (x y : ℕ) → bit_and x y / 2 ≡ bit_and (x / 2) (y / 2)
half_and x y = omega (arith, bit_and_split x y)

half_or : (x y : ℕ) → bit_or x y / 2 ≡ bit_or (x / 2) (y / 2)
half_or x y = omega (arith, bit_or_split x y)

pub test_bit-bit_and : (x y i : ℕ) → test_bit (bit_and x y) i ≡ test_bit x i && test_bit y i
test_bit-bit_and x y zero = ground (arith, bit_and_split x y)
test_bit-bit_and x y (suc i) = rw half_and (test_bit-bit_and (x / 2) (y / 2) i)

pub test_bit-bit_or : (x y i : ℕ) → test_bit (bit_or x y) i ≡ test_bit x i || test_bit y i
test_bit-bit_or x y zero = ground (arith, bit_or_split x y)
test_bit-bit_or x y (suc i) = rw half_or (test_bit-bit_or (x / 2) (y / 2) i)

pub bit_xor_split : (x y : ℕ) → bit_xor x y ≡ bit_xor (x / 2) (y / 2) * 2 + differ (x % 2) (y % 2)
bit_xor_split zero y = simp bit_xor-bitwise (omega arith)
bit_xor_split (suc x) y = simp bit_xor-bitwise (bitwise_split (λ b. b) differ x y)

differ-eq : (x y : ℕ) → x < 2 → y < 2 → differ x y ≡ (x + y) % 2
differ-eq zero y h k = ground arith
differ-eq (suc x) zero h k = ground arith
differ-eq (suc zero) (suc zero) h k = refl
differ-eq (suc zero) (suc (suc y)) h k = absurd (omega arith)
differ-eq (suc (suc x)) (suc y) h k = absurd (omega arith)

half_xor : (x y : ℕ) → bit_xor x y / 2 ≡ bit_xor (x / 2) (y / 2)
half_xor x y =
    omega (arith, bit_xor_split x y, differ-eq (x % 2) (y % 2) (omega arith) (omega arith))

pub test_bit-bit_xor :
    (x y i : ℕ)
    → test_bit (bit_xor x y) i
      ≡ (test_bit x i || test_bit y i) && not (test_bit x i && test_bit y i)
test_bit-bit_xor x y zero =
    ground (arith, bit_xor_split x y, differ-eq (x % 2) (y % 2) (omega arith) (omega arith))
test_bit-bit_xor x y (suc i) = rw half_xor (test_bit-bit_xor (x / 2) (y / 2) i)
