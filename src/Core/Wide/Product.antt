-- ===== src/Core/Wide/Product.antt =====
-- The products of src/core/riscv_helper.h are the products of the two operands.
use native.Mathlib.Nat.{mul-le-mul}
use riscv_em.Base.{
  ℕ, suc, ◌+◌, ◌-◌, ◌*◌, ◌/◌, ◌%◌, ◌^◌, ◌≤◌, ◌<◌, ◌≡◌, sym, ap₂, ◌∙◌, Bool, true, false,
  if◌then◌else◌, arith,
}
use riscv_em.Base.Words.{wrap, sub_word}
use riscv_em.Types.{Arch, rv32, rv64, xlen}
use riscv_em.Core.Words.{is_negative, half}
use riscv_em.Core.Wide.{umul_wide, mul_wide, mulhsu_wide}

partial : (m x y : ℕ) → x < suc m → y < suc m → x * y ≤ m * m
partial m x y k l = mul-le-mul (omega (arith, k)) (omega (arith, l))

-- The words computed from the four partial products.
words16 :
    (p0 p1 p2 p3 : ℕ)
    → p0 ≤ 65535 * 65535
    → p1 ≤ 65535 * 65535
    → p2 ≤ 65535 * 65535
    → p3 ≤ 65535 * 65535
    → let hi = wrap 32 (
        wrap 32 p3
        + wrap 32 p1 / 65536
        + wrap 32 p2 / 65536
        + wrap 16
            (wrap 32 (wrap 32 p0 / 65536 + wrap 16 (wrap 32 p1) + wrap 16 (wrap 32 p2)) / 65536)) in
      let lo = wrap 32 (wrap 32 p0 + wrap 32 (wrap 32 p1 * 65536) + wrap 32 (wrap 32 p2 * 65536)) in
      (hi * 2 ^ 32 + lo ≡ p0 + 65536 * p1 + 65536 * p2 + 65536 * 65536 * p3) × (lo < 2 ^ 32)
words16 p0 p1 p2 p3 h0 h1 h2 h3 = (omega arith, omega arith)

-- The words computed from the four partial products.
words32 :
    (p0 p1 p2 p3 : ℕ)
    → p0 ≤ 0xFFFFFFFF * 0xFFFFFFFF
    → p1 ≤ 0xFFFFFFFF * 0xFFFFFFFF
    → p2 ≤ 0xFFFFFFFF * 0xFFFFFFFF
    → p3 ≤ 0xFFFFFFFF * 0xFFFFFFFF
    → let hi = wrap 64 (
        wrap 64 p3
        + wrap 64 p1 / 0x100000000
        + wrap 64 p2 / 0x100000000
        + wrap 32 (
            wrap 64 (wrap 64 p0 / 0x100000000 + wrap 32 (wrap 64 p1) + wrap 32 (wrap 64 p2))
            / 0x100000000)) in
      let lo =
        wrap 64
          (wrap 64 p0 + wrap 64 (wrap 64 p1 * 0x100000000) + wrap 64 (wrap 64 p2 * 0x100000000)) in
      (hi * 2 ^ 64 + lo ≡ p0 + 0x100000000 * p1 + 0x100000000 * p2 + 0x100000000 * 0x100000000 * p3)
      × (lo < 2 ^ 64)
words32 p0 p1 p2 p3 h0 h1 h2 h3 = (omega arith, omega arith)

parts :
    (h q a r b : ℕ)
    → (r + h * q) * (b + h * a) ≡ r * b + h * (r * a) + h * (q * b) + h * h * (q * a)
parts h q a r b = ground arith

-- `umul32wide`: the two words are the product.
pub umul32wide_lem :
    (a b : ℕ)
    → a < 2 ^ 32
    → b < 2 ^ 32
    → let (hi, lo) = umul_wide 16 a b in (hi * 2 ^ 32 + lo ≡ a * b) × (lo < 2 ^ 32)
unfolding umul_wide
umul32wide_lem a b k l =
    let a_lo = a % 65536 in
    let a_hi = a / 65536 in
    let b_lo = b % 65536 in
    let b_hi = b / 65536 in
    let (sum, low) =
      words16 (a_lo * b_lo) (a_lo * b_hi) (a_hi * b_lo) (a_hi * b_hi)
        (partial 65535 a_lo b_lo (omega arith) (omega arith))
        (partial 65535 a_lo b_hi (omega arith) (omega arith))
        (partial 65535 a_hi b_lo (omega arith) (omega arith))
        (partial 65535 a_hi b_hi (omega arith) (omega arith)) in
    (
      sum ∙ sym (parts 65536 a_hi b_hi a_lo b_lo) ∙ ap₂ (λ x y. x * y) (omega arith) (omega arith),
      low,
    )

-- `umul64wide`: the two words are the product.
pub umul64wide_lem :
    (a b : ℕ)
    → a < 2 ^ 64
    → b < 2 ^ 64
    → let (hi, lo) = umul_wide 32 a b in (hi * 2 ^ 64 + lo ≡ a * b) × (lo < 2 ^ 64)
unfolding umul_wide
umul64wide_lem a b k l =
    let a_lo = a % 0x100000000 in
    let a_hi = a / 0x100000000 in
    let b_lo = b % 0x100000000 in
    let b_hi = b / 0x100000000 in
    let (sum, low) =
      words32 (a_lo * b_lo) (a_lo * b_hi) (a_hi * b_lo) (a_hi * b_hi)
        (partial 0xFFFFFFFF a_lo b_lo (omega arith) (omega arith))
        (partial 0xFFFFFFFF a_lo b_hi (omega arith) (omega arith))
        (partial 0xFFFFFFFF a_hi b_lo (omega arith) (omega arith))
        (partial 0xFFFFFFFF a_hi b_hi (omega arith) (omega arith)) in
    (
      sum
          ∙ sym (parts 0x100000000 a_hi b_hi a_lo b_lo)
          ∙ ap₂ (λ x y. x * y) (omega arith) (omega arith),
      low,
    )

-- A word of `w` bits sign-extended to `2 * w` bits.
abbrev pub sign_extend : ℕ → ℕ → ℕ
sign_extend w v = if is_negative w v then v + (2 ^ (2 * w) - 2 ^ w) else v

pub umul_wide_lem :
    (a : Arch) (x y : ℕ)
    → x < 2 ^ xlen a
    → y < 2 ^ xlen a
    → let (hi, lo) = umul_wide (half a) x y in (hi * 2 ^ xlen a + lo ≡ x * y) × (lo < 2 ^ xlen a)
umul_wide_lem rv32 x y h k = umul32wide_lem x y h k
umul_wide_lem rv64 x y h k = umul64wide_lem x y h k

-- The corrections of the high word, with the two signs as arguments.
signed_words32 :
    (nx ny : Bool) (x y hi lo : ℕ)
    → x < 2 ^ 32
    → y < 2 ^ 32
    → hi * 2 ^ 32 + lo ≡ x * y
    → lo < 2 ^ 32
    → let hi1 = if nx then sub_word 32 hi y else hi in
      let hi2 = if ny then sub_word 32 hi1 x else hi1 in
      hi2 * 2 ^ 32 + lo
      ≡ (if nx then x + (2 ^ 64 - 2 ^ 32) else x)
        * (if ny then y + (2 ^ 64 - 2 ^ 32) else y)
        % 2 ^ 64
signed_words32 false false x y hi lo h k e l = omega (arith, partial 0xFFFFFFFF x y h k)
signed_words32 false true x y hi lo h k e l = omega (arith, partial 0xFFFFFFFF x y h k)
signed_words32 true false x y hi lo h k e l = omega (arith, partial 0xFFFFFFFF x y h k)
signed_words32 true true x y hi lo h k e l = omega (arith, partial 0xFFFFFFFF x y h k)

-- The corrections of the high word, with the two signs as arguments.
signed_words64 :
    (nx ny : Bool) (x y hi lo : ℕ)
    → x < 2 ^ 64
    → y < 2 ^ 64
    → hi * 2 ^ 64 + lo ≡ x * y
    → lo < 2 ^ 64
    → let hi1 = if nx then sub_word 64 hi y else hi in
      let hi2 = if ny then sub_word 64 hi1 x else hi1 in
      hi2 * 2 ^ 64 + lo
      ≡ (if nx then x + (2 ^ 128 - 2 ^ 64) else x)
        * (if ny then y + (2 ^ 128 - 2 ^ 64) else y)
        % 2 ^ 128
signed_words64 false false x y hi lo h k e l = omega (arith, partial 0xFFFFFFFFFFFFFFFF x y h k)
signed_words64 false true x y hi lo h k e l = omega (arith, partial 0xFFFFFFFFFFFFFFFF x y h k)
signed_words64 true false x y hi lo h k e l = omega (arith, partial 0xFFFFFFFFFFFFFFFF x y h k)
signed_words64 true true x y hi lo h k e l = omega (arith, partial 0xFFFFFFFFFFFFFFFF x y h k)

pub mul_wide_lem :
    (a : Arch) (x y : ℕ)
    → x < 2 ^ xlen a
    → y < 2 ^ xlen a
    → let (hi, lo) = mul_wide (half a) x y in
      hi * 2 ^ xlen a + lo ≡ sign_extend (xlen a) x * sign_extend (xlen a) y % 2 ^ (2 * xlen a)
unfolding mul_wide
mul_wide_lem rv32 x y h k =
    let (e, l) = umul32wide_lem x y h k in
    signed_words32 (is_negative 32 x) (is_negative 32 y) x y _ _ h k e l
mul_wide_lem rv64 x y h k =
    let (e, l) = umul64wide_lem x y h k in
    signed_words64 (is_negative 64 x) (is_negative 64 y) x y _ _ h k e l

pub mulhsu_wide_lem :
    (a : Arch) (x y : ℕ)
    → x < 2 ^ xlen a
    → y < 2 ^ xlen a
    → let (hi, lo) = mulhsu_wide (half a) x y in
      hi * 2 ^ xlen a + lo ≡ sign_extend (xlen a) x * y % 2 ^ (2 * xlen a)
unfolding mulhsu_wide
mulhsu_wide_lem rv32 x y h k =
    let (e, l) = umul32wide_lem x y h k in signed_words32 (is_negative 32 x) false x y _ _ h k e l
mulhsu_wide_lem rv64 x y h k =
    let (e, l) = umul64wide_lem x y h k in signed_words64 (is_negative 64 x) false x y _ _ h k e l
