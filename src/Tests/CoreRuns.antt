-- ===== src/Tests/CoreRuns.antt =====
-- Instructions of src/core/core.c on concrete operands.
use riscv_em.Base.{
  ltb, leb, not, min, ◌&&◌, ◌||◌, ◌-◌, ◌⊎◌, ℕ, some, ◌+◌, ◌*◌, ◌%◌, ◌^◌, ◌<◌, ◌≡◌, refl, ◌∷◌,
  replicate, arith,
}
use riscv_em.Types.{rv32}
use riscv_em.Core.State.{Core}
use riscv_em.Core.Words.{signex, div_signed, rem_signed}
use riscv_em.Core.Wide.{umul_wide, mul_wide, mulhsu_wide}
use riscv_em.Core.Wide.Product.{sign_extend, umul_wide_lem, mul_wide_lem, mulhsu_wide_lem}
use riscv_em.Core.Muldiv.{div_result, rem_result}
use riscv_em.Core.Muldiv.Division.{IsQuotient, signed_div_rem}
use riscv_em.Base.Bits.{test_bit}
use riscv_em.Base.Words.{bit_of}
use riscv_em.Core.Alu.{
  instr_add, instr_sub, instr_sll, instr_slt, instr_srl, instr_sra, instr_sltu, instr_xor, instr_or,
  instr_and,
}
use riscv_em.Core.Alu.Effect.{target, same_bit, register_instructions_lem}
use riscv_em.Core.Prepare.{b_type_preparation}
use riscv_em.Core.Prepare.Offsets.{b_type_preparation_lem}
use riscv_em.Core.Branch.{
  instr_jal, instr_jalr, instr_beq, instr_bne, instr_blt, instr_bge, instr_bltu, instr_bgeu,
}
use riscv_em.Core.Branch.Aligned.{IsAligned, jumps-IsAligned}

-- x5 holds -7 and x6 holds 3 on RV32; the instruction's operands are these, its target x7.
abbrev minus_seven : ℕ
minus_seven = 0xFFFFFFF9

abbrev hart : Core
hart = record {
  x = 0 ∷ (0 ∷ (0 ∷ (0 ∷ (0 ∷ (minus_seven ∷ (3 ∷ replicate 25 0))))));
  pc = 0x1000;
  next_pc = 0;
  instruction = 0;
  rd = 7;
  rs1 = 5;
  rs2 = 6;
  func3 = 0;
  func5 = 0;
  func6 = 0;
  func7 = 0;
  immediate = 0xFFC;
  jump_offset = 0xFFFFFFF8;
}

-- -7 / 3 is -2, and the remainder is -1.
div_run : div_result 32 minus_seven 3 ≡ 0xFFFFFFFE
unfolding div_result div_signed
div_run = refl

rem_run : rem_result 32 minus_seven 3 ≡ 0xFFFFFFFF
unfolding rem_result rem_signed
rem_run = refl

signed_div_rem_example :
    let q = div_result 32 minus_seven 3 in
    let r = rem_result 32 minus_seven 3 in
    ((q * 3 + r) % 2 ^ 32 ≡ minus_seven)
    × (((let divisor : ℕ = 3 in divisor ≡ 0) × (q ≡ 2 ^ 32 - 1) × (r ≡ minus_seven))
        ⊎ IsQuotient 32 minus_seven 3 q r)
signed_div_rem_example = signed_div_rem 32 minus_seven 3 (omega arith) (omega arith) (omega arith)

umul_wide_lem_example :
    let (hi, lo) = umul_wide 16 minus_seven minus_seven in
    (hi * 2 ^ 32 + lo ≡ minus_seven * minus_seven) × (lo < 2 ^ 32)
umul_wide_lem_example = umul_wide_lem rv32 minus_seven minus_seven (omega arith) (omega arith)

mul_wide_lem_example :
    let (hi, lo) = mul_wide 16 minus_seven 3 in
    hi * 2 ^ 32 + lo ≡ sign_extend 32 minus_seven * sign_extend 32 3 % 2 ^ 64
mul_wide_lem_example = mul_wide_lem rv32 minus_seven 3 (omega arith) (omega arith)

mulhsu_wide_lem_example :
    let (hi, lo) = mulhsu_wide 16 minus_seven minus_seven in
    hi * 2 ^ 32 + lo ≡ sign_extend 32 minus_seven * minus_seven % 2 ^ 64
mulhsu_wide_lem_example = mulhsu_wide_lem rv32 minus_seven minus_seven (omega arith) (omega arith)

jumps-IsAligned_example :
    IsAligned (instr_jal rv32 hart)
    × IsAligned (instr_jalr rv32 hart)
    × IsAligned (instr_beq rv32 hart)
    × IsAligned (instr_bne rv32 hart)
    × IsAligned (instr_blt rv32 hart)
    × IsAligned (instr_bge rv32 hart)
    × IsAligned (instr_bltu rv32 hart)
    × IsAligned (instr_bgeu rv32 hart)
jumps-IsAligned_example = jumps-IsAligned rv32 hart refl refl

-- `bne x5, x6, -8`, and `jal x1, -16`.
b_type_preparation_lem_example :
    let (c', next) = b_type_preparation rv32 (record hart { instruction = 0xFE629CE3 }) in
    (c'.jump_offset ≡ signex 32 13 (12 * 2 + 63 * 32 + 1 * 2048 + 1 * 4096))
    × (c'.rs1 ≡ 5)
    × (c'.rs2 ≡ 6)
    × (next ≡ some 1)
b_type_preparation_lem_example =
    b_type_preparation_lem rv32 (record hart { instruction = 0xFE629CE3 }) 0x63 1 12 1 5 6 63 1
      (omega arith) (omega arith) (omega arith) (omega arith) (omega arith) (omega arith)
      (omega arith) (omega arith) refl

-- x5 is negative, so the digit 31 of the arithmetic shift by 3 is set.
register_instructions_lem_example :
    let w : ℕ = 32 in
    let i : ℕ = 31 in
    let u = minus_seven in
    let v : ℕ = 3 in
    let k = v % w in
    (target (instr_add rv32 hart) 7 ≡ (u + v) % 2 ^ w)
    × ((target (instr_sub rv32 hart) 7 + v) % 2 ^ w ≡ u)
    × (target (instr_slt rv32 hart) 7
        ≡ bit_of (ltb ((u + 2 ^ (w - 1)) % 2 ^ w) ((v + 2 ^ (w - 1)) % 2 ^ w)))
    × (target (instr_sltu hart) 7 ≡ bit_of (ltb u v))
    × (test_bit (target (instr_sll rv32 hart) 7) i ≡ leb k i && test_bit u (i - k))
    × (test_bit (target (instr_srl rv32 hart) 7) i ≡ test_bit u (k + i))
    × (test_bit (target (instr_sra rv32 hart) 7) i ≡ test_bit u (min (k + i) (w - 1)))
    × (test_bit (target (instr_xor hart) 7) i ≡ not (same_bit (test_bit u i) (test_bit v i)))
    × (test_bit (target (instr_or hart) 7) i ≡ test_bit u i || test_bit v i)
    × (test_bit (target (instr_and hart) 7) i ≡ test_bit u i && test_bit v i)
register_instructions_lem_example =
    register_instructions_lem rv32 hart 31 refl (omega arith) (omega arith) (omega arith)
      (omega arith)
