-- ===== src/Helper.antt =====
-- src/core/riscv_helper.h: the bit operators, on unsigned words of a given width.
pub mod Laws
use riscv_em.Base.{ℕ, ◌+◌, ◌-◌, ◌*◌, ◌/◌, ◌^◌, bit_and, bit_or, Bool, not, ◌&&◌, ltb, leb, ◌==◌}
use riscv_em.Base.Words.{wrap, complement}

-- `CHECK_BIT(x, n)` as a condition.
unfoldable pub check_bit : ℕ → ℕ → Bool
check_bit x n = not (bit_and x (2 ^ n) == 0)

-- `CLEAR_BIT(x, n)` on a word of `w` bits.
unfoldable pub clear_bit : ℕ → ℕ → ℕ → ℕ
clear_bit w x n = bit_and x (complement w (2 ^ n))

-- `assign_xlen_bit`, `assign_u32_bit` and `assign_u8_bit`, by the width of the word assigned.
-- `1UL` has 64 bits; the store converts to the word's type.
unfoldable pub assign_bit : ℕ → ℕ → ℕ → ℕ → ℕ
assign_bit w out nbit value =
    wrap w (bit_or (bit_and out (complement 64 (2 ^ nbit))) (bit_and value 1 * 2 ^ nbit))

-- `assign_xlen_value_within_reg`
unfoldable pub assign_value_within_reg : ℕ → ℕ → ℕ → ℕ → ℕ → ℕ
assign_value_within_reg w out nbit value mask =
    bit_or (bit_and out (complement w (wrap w (mask * 2 ^ nbit))))
      (wrap w (bit_and value mask * 2 ^ nbit))

-- `extractxlen`, `extract32` and `extract8`, by the width of the word read.
unfoldable pub extract : ℕ → ℕ → ℕ → ℕ → ℕ
extract w value start len = bit_and (value / 2 ^ start) ((2 ^ w - 1) / 2 ^ (w - len))

-- `ADDR_WITHIN(addr, start, size)` on words of `w` bits: the sum wraps.
unfoldable pub addr_within : ℕ → ℕ → ℕ → ℕ → Bool
addr_within w addr start size = leb start addr && ltb addr (wrap w (start + size))
