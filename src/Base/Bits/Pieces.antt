-- ===== src/Base/Bits/Pieces.antt =====
-- `|` of pieces that do not overlap.
use Prim.Native.Nat.{ℕ, zero, suc, ◌+◌, ◌*◌, ◌/◌, ◌^◌, ◌<◌, bit_or}
use mathlib.Core.Path.{◌≡◌, ap, ◌∙◌}
use native.Mathlib.Omega.{arith}
use native.Mathlib.Nat.{pow-suc}
use riscv_em.Base.Bits.Digits.{bit_or_split, test_bit-bit_or}
use riscv_em.Base.Bits.Shifts.{test_bit-zero, test_bit_ext}

bit_or-zero : (x : ℕ) → bit_or 0 x ≡ x
bit_or-zero x = test_bit_ext _ _ λ i. ground (arith, test_bit-bit_or 0 x i, test_bit-zero i)

-- `|` of pieces that do not overlap is their sum.
pub bit_or-add : (k x y : ℕ) → y < 2 ^ k → bit_or y (x * 2 ^ k) ≡ y + x * 2 ^ k
bit_or-add zero x y h =
    ap (λ t. bit_or t (x * 2 ^ 0)) is_zero ∙ bit_or-zero (x * 2 ^ 0) ∙ omega (arith, h)
  where
    is_zero : y ≡ 0
    is_zero = omega (arith, h)
bit_or-add (suc k) x y h = ground (
  arith,
  bit_or_split y (x * 2 ^ suc k),
  ap (λ t. x * t) (pow-suc 2 k),
  pow-suc 2 k,
  bit_or-add k x (y / 2) (omega (arith, pow-suc 2 k)),
  ap (bit_or (y / 2)) (halved k),
)
  where
    halved : (k : ℕ) → x * 2 ^ suc k / 2 ≡ x * 2 ^ k
    halved k = omega (arith, ap (λ t. x * t) (pow-suc 2 k))

bit_or_comm : (x y : ℕ) → bit_or x y ≡ bit_or y x
bit_or_comm x y = test_bit_ext _ _ λ i. ground (arith, test_bit-bit_or x y i, test_bit-bit_or y x i)

pub add-bit_or : (k x y : ℕ) → y < 2 ^ k → bit_or (x * 2 ^ k) y ≡ x * 2 ^ k + y
add-bit_or k x y h = omega (arith, bit_or-add k x y h, bit_or_comm (x * 2 ^ k) y)
