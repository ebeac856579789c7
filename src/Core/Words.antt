-- ===== src/Core/Words.antt =====
-- The signed readings of a word that src/core/core.c uses, in two's complement: `rv_int_xlen` is
-- the type of the same width, and the hosts' compilers shift a negative number right by copying
-- its sign and wrap a signed sum or product.
pub mod Signed
use riscv_em.Base.{ℕ, ◌+◌, ◌-◌, ◌*◌, ◌/◌, ◌%◌, ◌^◌, Bool, ltb, leb, ◌==◌, not, if◌then◌else◌}
use riscv_em.Base.Words.{wrap, complement, sub_word}
use riscv_em.Types.{Arch, rv32, rv64, xlen}

-- `SIGNEX_BIT_n`: a field of `bits` = n + 1 bits of `v`, as a number of `w` bits.
unfoldable pub signex : ℕ → ℕ → ℕ → ℕ
signex w bits v =
    let low = wrap bits v in if ltb low (2 ^ (bits - 1)) then low else low + (2 ^ w - 2 ^ bits)

-- The sign of a word of `w` bits.
abbrev pub is_negative : ℕ → ℕ → Bool
is_negative w v = leb (2 ^ (w - 1)) v

abbrev pub same_sign : ℕ → ℕ → ℕ → Bool
same_sign w a b = if is_negative w a then is_negative w b else not (is_negative w b)

-- `a < b` on signed words.
unfoldable pub ltb_signed : ℕ → ℕ → ℕ → Bool
ltb_signed w a b = if same_sign w a b then ltb a b else is_negative w a

-- `v >> k` on a signed word.
unfoldable pub shift_right_signed : ℕ → ℕ → ℕ → ℕ
shift_right_signed w v k =
    if is_negative w v then complement w (complement w v / 2 ^ k) else v / 2 ^ k

-- `-v`, and the absolute value.
abbrev pub negate : ℕ → ℕ → ℕ
negate w v = sub_word w 0 v

abbrev pub magnitude : ℕ → ℕ → ℕ
magnitude w v = if is_negative w v then 2 ^ w - v else v

-- `a / b` and `a % b` on signed words, which round to zero; `b` is not 0 and the quotient fits.
unfoldable pub div_signed : ℕ → ℕ → ℕ → ℕ
div_signed w a b =
    let quotient = magnitude w a / magnitude w b in
    if same_sign w a b then wrap w quotient else negate w quotient

unfoldable pub rem_signed : ℕ → ℕ → ℕ → ℕ
rem_signed w a b =
    let remainder = magnitude w a % magnitude w b in
    if is_negative w a then negate w remainder else remainder

-- `SHIFT_OP_MASK`
abbrev pub shift_op_mask : Arch → ℕ
shift_op_mask rv32 = 0x1F
shift_op_mask rv64 = 0x3F

-- Half the width of a register.
abbrev pub half : Arch → ℕ
half rv32 = 16
half rv64 = 32
