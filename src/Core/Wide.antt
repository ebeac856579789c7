-- ===== src/Core/Wide.antt =====
-- src/core/riscv_helper.h: the products of two words of `2 * h` bits in two words. `h` is 32 in
-- `umul64wide`, `mul64wide` and `mulhsu64wide`, 16 in `umul32wide` and the two others.
pub mod Product
use riscv_em.Base.{ℕ, ◌+◌, ◌-◌, ◌*◌, ◌/◌, ◌%◌, ◌^◌, Bool, ltb, leb, if◌then◌else◌}
use riscv_em.Base.Words.{wrap, sub_word}
use riscv_em.Core.Words.{is_negative}

-- The high word and the low word.
unfoldable pub umul_wide : ℕ → ℕ → ℕ → ℕ × ℕ
umul_wide h a b =
    let w = 2 * h in
    let a_lo = wrap h a in
    let a_hi = a / 2 ^ h in
    let b_lo = wrap h b in
    let b_hi = b / 2 ^ h in
    let p0 = wrap w (a_lo * b_lo) in
    let p1 = wrap w (a_lo * b_hi) in
    let p2 = wrap w (a_hi * b_lo) in
    let p3 = wrap w (a_hi * b_hi) in
    let cy = wrap h (wrap w (p0 / 2 ^ h + wrap h p1 + wrap h p2) / 2 ^ h) in
    (
      wrap w (p3 + p1 / 2 ^ h + p2 / 2 ^ h + cy),
      wrap w (p0 + wrap w (p1 * 2 ^ h) + wrap w (p2 * 2 ^ h)),
    )

unfoldable pub mul_wide : ℕ → ℕ → ℕ → ℕ × ℕ
mul_wide h a b =
    let (hi, lo) = umul_wide h a b in
    let w = 2 * h in
    let hi1 = if is_negative w a then sub_word w hi b else hi in
    let hi2 = if is_negative w b then sub_word w hi1 a else hi1 in (hi2, lo)

unfoldable pub mulhsu_wide : ℕ → ℕ → ℕ → ℕ × ℕ
mulhsu_wide h a b =
    let (hi, lo) = umul_wide h a b in
    let w = 2 * h in (if is_negative w a then sub_word w hi b else hi, lo)
