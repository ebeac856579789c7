-- ===== src/Helper/Laws.antt =====
-- The bit operators of src/core/riscv_helper.h, digit by digit.
use riscv_em.Base.{
  ◌||◌, ℕ, ◌+◌, ◌-◌, ◌*◌, ◌/◌, ◌%◌, ◌^◌, ◌≤◌, ◌<◌, bit_and, bit_or, bit_xor, ◌≡◌, false, not, ◌&&◌,
  ltb, leb, ◌==◌, if◌then◌else◌, Bool-cases, inl, inr, arith,
}
use riscv_em.Base.Bits.{
  test_bit, test_bit-zero, test_bit-pow, test_bit-shl, test_bit-shr, test_bit-mod, test_bit_above,
  test_bit-complement, test_bit-bit_and, test_bit-bit_or, test_bit-bit_xor, test_bit_ext,
}
use riscv_em.Base.Words.{lt_of_test_bit, wrap, complement, pow-lt_of_lt, pow-pos, wrap-lt}
use riscv_em.Helper.{check_bit, clear_bit, assign_bit, assign_value_within_reg, extract}

pub check_bit-eq-test_bit : (x n : ℕ) → check_bit x n ≡ test_bit x n
unfolding check_bit
check_bit-eq-test_bit x n = elim (Bool-cases (test_bit x n)) [
  | inl set ↦ ground (arith, one_digit n, test_bit-zero n)
  | inr clear ↦ ground (arith, test_bit_ext (bit_and x (2 ^ n)) 0 (λ i. no_digit clear i))
]
  where
    one_digit : (i : ℕ) → test_bit (bit_and x (2 ^ n)) i ≡ test_bit x i && (i == n)
    one_digit i = rw (test_bit-bit_and, test_bit-pow)

    no_digit : test_bit x n ≡ false → (i : ℕ) → test_bit (bit_and x (2 ^ n)) i ≡ test_bit 0 i
    no_digit clear i = ground (arith, one_digit i, test_bit-zero i)

pub test_bit-clear_bit :
    (w x n i : ℕ) → x < 2 ^ w → n < w → test_bit (clear_bit w x n) i ≡ not (i == n) && test_bit x i
unfolding clear_bit
test_bit-clear_bit w x n i hx hn = ground (
  arith,
  test_bit-bit_and x (complement w (2 ^ n)) i,
  test_bit-complement (2 ^ n) w i (pow-lt_of_lt n w hn),
  test_bit-pow n i,
  test_bit_above x w i hx,
)

test_bit-one : (i : ℕ) → test_bit 1 i ≡ (i == 0)
test_bit-one i = test_bit-pow 0 i

pub test_bit-assign_bit :
    (w out n v i : ℕ)
    → w ≤ 64
    → out < 2 ^ w
    → n < w
    → test_bit (assign_bit w out n v) i ≡ (if i == n then test_bit v 0 else test_bit out i)
unfolding assign_bit
test_bit-assign_bit w out n v i hw ho hn =
    rw (test_bit-mod, test_bit-bit_or, test_bit-bit_and)
      (ground (
        arith,
        test_bit-complement (2 ^ n) 64 i (pow-lt_of_lt n 64 (omega arith)),
        test_bit-pow n i,
        test_bit-shl (bit_and v 1) n i,
        test_bit-bit_and v 1 (i - n),
        test_bit-one (i - n),
        test_bit_above out w i ho,
      ))

pub assign_bit-lt : (w out n v : ℕ) → assign_bit w out n v < 2 ^ w
unfolding assign_bit
assign_bit-lt w out n v = wrap-lt w _

test_bit-low_mask : (m i : ℕ) → test_bit (2 ^ m - 1) i ≡ ltb i m
test_bit-low_mask m i = ground (arith, test_bit-complement 0 m i (pow-pos m), test_bit-zero i)

-- `extract` reads a field: `len` digits from `start` on.
pub extract-eq-mod : (w v start len : ℕ) → len ≤ w → extract w v start len ≡ v / 2 ^ start % 2 ^ len
unfolding extract
extract-eq-mod w v start len h = test_bit_ext _ _ λ i.
    rw (test_bit-bit_and, test_bit-mod)
      (ground (arith, test_bit-shr (2 ^ w - 1) (w - len) i, test_bit-low_mask w (w - len + i)))

pub test_bit-extract :
    (w v start len i : ℕ)
    → len ≤ w
    → test_bit (extract w v start len) i ≡ ltb i len && test_bit v (start + i)
test_bit-extract w v start len i h = rw (extract-eq-mod w v start len h, test_bit-mod, test_bit-shr)

-- The field of `m` digits from `n` on is assigned, and every other digit stays.
pub test_bit-assign_value :
    (w out n v m i : ℕ)
    → out < 2 ^ w
    → n + m ≤ w
    → test_bit (assign_value_within_reg w out n v (2 ^ m - 1)) i
      ≡ (if leb n i && ltb i (n + m) then test_bit v (i - n) else test_bit out i)
unfolding assign_value_within_reg
test_bit-assign_value w out n v m i ho hn =
    rw (test_bit-bit_or, test_bit-bit_and, test_bit-mod)
      (ground (
        arith,
        test_bit-complement (wrap w ((2 ^ m - 1) * 2 ^ n)) w i (wrap-lt w _),
        test_bit-mod ((2 ^ m - 1) * 2 ^ n) w i,
        test_bit-shl (2 ^ m - 1) n i,
        test_bit-low_mask m (i - n),
        test_bit-shl (bit_and v (2 ^ m - 1)) n i,
        test_bit-bit_and v (2 ^ m - 1) (i - n),
        test_bit_above out w i ho,
      ))

pub assign_value-lt :
    (w out n v m : ℕ)
    → out < 2 ^ w
    → n + m ≤ w
    → assign_value_within_reg w out n v (2 ^ m - 1) < 2 ^ w
assign_value-lt w out n v m ho hn =
    lt_of_test_bit w _
      λ i h. ground (arith, test_bit-assign_value w out n v m i ho hn, test_bit_above out w i ho)

pub clear_bit-lt : (w x n : ℕ) → x < 2 ^ w → clear_bit w x n < 2 ^ w
unfolding clear_bit
clear_bit-lt w x n h =
    lt_of_test_bit w _
      λ i hi. ground (arith, test_bit-bit_and x (complement w (2 ^ n)) i, test_bit_above x w i h)

-- `!(x & (1 << n))` as the code writes it.
pub bit_and-pow_zero : (x n : ℕ) → (bit_and x (2 ^ n) == 0) ≡ not (test_bit x n)
unfolding check_bit
bit_and-pow_zero x n = ground (arith, check_bit-eq-test_bit x n)

pub bit_and-lt : (w x y : ℕ) → y < 2 ^ w → bit_and x y < 2 ^ w
bit_and-lt w x y h =
    lt_of_test_bit w _ λ i hi. ground (arith, test_bit-bit_and x y i, test_bit_above y w i h hi)

pub bit_or-lt : (w x y : ℕ) → x < 2 ^ w → y < 2 ^ w → bit_or x y < 2 ^ w
bit_or-lt w x y h k =
    lt_of_test_bit w _ λ i l.
      ground (arith, test_bit-bit_or x y i, test_bit_above x w i h l, test_bit_above y w i k l)

pub bit_xor-lt : (w x y : ℕ) → x < 2 ^ w → y < 2 ^ w → bit_xor x y < 2 ^ w
bit_xor-lt w x y h k = lt_of_test_bit w _ λ i l.
    ground (arith, test_bit-bit_xor x y i, test_bit_above x w i h l, test_bit_above y w i k l)

-- Four digits are all clear exactly when the number is 0.
pub nibble_zero :
    (x : ℕ) → x < 16 → (x == 0) ≡ not (test_bit x 0 || test_bit x 1 || test_bit x 2 || test_bit x 3)
nibble_zero x h = ground arith

-- `& mask` with a mask of `k` ones.
pub mask-eq-mod : (x k : ℕ) → bit_and x (2 ^ k - 1) ≡ x % 2 ^ k
mask-eq-mod x k = test_bit_ext _ _ λ i. ground (
  arith,
  test_bit-bit_and x (2 ^ k - 1) i,
  test_bit-mod x k i,
  test_bit-complement 0 k i (pow-pos k),
  test_bit-zero i,
)
