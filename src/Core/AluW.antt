-- ===== src/Core/AluW.antt =====
-- src/core/core.c: the instructions of RV64I that compute on 32-bit words and write their result
-- sign-extended.
use riscv_em.Base.{ℕ, ◌+◌, ◌*◌, ◌/◌, ◌^◌, bit_and}
use riscv_em.Base.Words.{wrap, sub_word}
use riscv_em.Core.State.{Core, rs1_val, rs2_val, write_rd}
use riscv_em.Core.Words.{signex, shift_right_signed}

-- An assignment of an `int32_t` to a register.
abbrev pub write_rd_32 : Core → ℕ → Core
write_rd_32 c v = write_rd c (signex 64 32 v)

unfoldable pub instr_sraiw : Core → Core
instr_sraiw c =
    write_rd_32 c (shift_right_signed 32 (wrap 32 (rs1_val c)) (bit_and c.immediate 0x1F))

unfoldable pub instr_addiw : Core → Core
instr_addiw c = write_rd_32 c (wrap 32 (rs1_val c) + wrap 32 (signex 64 12 c.immediate))

unfoldable pub instr_slliw : Core → Core
instr_slliw c =
    write_rd_32 c (bit_and (wrap 64 (rs1_val c * 2 ^ bit_and c.immediate 0x1F)) 0xFFFFFFFF)

unfoldable pub instr_srliw : Core → Core
instr_srliw c = write_rd_32 c (wrap 32 (rs1_val c) / 2 ^ bit_and c.immediate 0x1F)

unfoldable pub instr_srlw : Core → Core
instr_srlw c = write_rd_32 c (wrap 32 (rs1_val c) / 2 ^ bit_and (rs2_val c) 0x1F)

unfoldable pub instr_sraw : Core → Core
instr_sraw c =
    write_rd_32 c (shift_right_signed 32 (wrap 32 (rs1_val c)) (bit_and (rs2_val c) 0x1F))

unfoldable pub instr_sllw : Core → Core
instr_sllw c = write_rd_32 c (wrap 32 (wrap 32 (rs1_val c) * 2 ^ bit_and (rs2_val c) 0x1F))

unfoldable pub instr_addw : Core → Core
instr_addw c = write_rd_32 c (wrap 32 (wrap 32 (rs1_val c) + wrap 32 (rs2_val c)))

unfoldable pub instr_subw : Core → Core
instr_subw c = write_rd_32 c (sub_word 32 (wrap 32 (rs1_val c)) (wrap 32 (rs2_val c)))
