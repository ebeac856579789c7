-- ===== src/Core/Words/Signed.antt =====
-- The signed operators of src/core/core.c on words, against the order of the biased words and the
-- digits of the word.
use native.Mathlib.Nat.{
  mod-eq_of_lt, add-mul-mod_self_left, div-eq_of_lt, div-eq_of_lt-le, div-le_self, pow-suc,
}
use riscv_em.Base.{
  ℕ, zero, suc, ◌+◌, ◌-◌, ◌*◌, ◌/◌, ◌%◌, ◌^◌, ◌≤◌, ◌<◌, ◌≡◌, min, ltb, leb, if◌then◌else◌, arith,
}
use riscv_em.Base.Bits.{test_bit, test_bit-shr, test_bit-complement, test_bit_above}
use riscv_em.Base.Words.{pow-pos}
use riscv_em.Core.Words.{is_negative, ltb_signed, shift_right_signed}

pub pow-half : (w : ℕ) → 1 ≤ w → 2 ^ w ≡ 2 * 2 ^ (w - 1)
pow-half zero h = absurd (omega arith)
pow-half (suc w) h = ground (arith, pow-suc 2 w)

small_mod : (x m : ℕ) → x < m → x % m ≡ x
small_mod x m h = mod-eq_of_lt h

rotate : (m v : ℕ) → v < 2 * m → (v + m) % (2 * m) ≡ (if leb m v then v - m else v + m)
rotate m v h = ground (
  arith,
  add-mul-mod_self_left (v - m) (2 * m) 1,
  small_mod (v + m) (2 * m),
  small_mod (v - m) (2 * m),
)

-- Signed comparison is unsigned comparison after adding the bias 2 ^ (w - 1), modulo 2 ^ w.
pub ltb_signed_lem :
    (w a b : ℕ)
    → 1 ≤ w
    → a < 2 ^ w
    → b < 2 ^ w
    → ltb_signed w a b ≡ ltb ((a + 2 ^ (w - 1)) % 2 ^ w) ((b + 2 ^ (w - 1)) % 2 ^ w)
unfolding ltb_signed
ltb_signed_lem w a b pos h k =
    grind (arith, pow-half w pos, rotate (2 ^ (w - 1)) a, rotate (2 ^ (w - 1)) b)

quotient_two : (m v : ℕ) → 0 < m → v < 2 * m → v / m ≡ (if leb m v then 1 else 0)
quotient_two m v k h = ground (arith, below m v, above m v k h)
  where
    below : (m v : ℕ) → v < m → v / m ≡ 0
    below m v l = div-eq_of_lt l

    above : (m v : ℕ) → 0 < m → v < 2 * m → m ≤ v → v / m ≡ 1
    above m v k h l = div-eq_of_lt-le {k = 1} m (omega arith) (omega arith)

sign_digit : (w v : ℕ) → 1 ≤ w → v < 2 ^ w → is_negative w v ≡ test_bit v (w - 1)
sign_digit w v pos h =
    ground (
      arith,
      pow-half w pos,
      pow-pos (w - 1),
      test_bit-shr v (w - 1) 0,
      quotient_two (2 ^ (w - 1)) v,
    )

-- A signed shift to the right moves each digit down and repeats the highest.
pub shift_right_signed_lem :
    (w v k i : ℕ)
    → 1 ≤ w
    → v < 2 ^ w
    → i < w
    → test_bit (shift_right_signed w v k) i ≡ test_bit v (min (k + i) (w - 1))
unfolding shift_right_signed
shift_right_signed_lem w v k i pos h l =
    let shrunk : (2 ^ w - 1 - v) / 2 ^ k < 2 ^ w =
      omega (arith, div-le_self (2 ^ w - 1 - v) (2 ^ k), pow-pos w) in
    ground (
      arith,
      sign_digit w v pos h,
      pow-pos w,
      test_bit-shr v k i,
      test_bit-complement v w (k + i) h,
      test_bit-shr (2 ^ w - 1 - v) k i,
      test_bit-complement ((2 ^ w - 1 - v) / 2 ^ k) w i shrunk,
      test_bit_above v w (k + i) h,
      last_digit,
    )
  where
    last_digit : w ≤ suc (k + i) → min (k + i) (w - 1) ≡ w - 1
    last_digit le = omega arith
