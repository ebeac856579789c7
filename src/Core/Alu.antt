-- ===== src/Core/Alu.antt =====
-- src/core/core.c: the instructions of RV32I and RV64I from `instr_NOP` to `instr_SRA` that write
-- a register and do not jump.
pub mod Effect
use riscv_em.Base.{
  ℕ, ◌+◌, ◌-◌, ◌*◌, ◌/◌, ◌^◌, bit_and, bit_or, bit_xor, not, ltb, ◌==◌, if◌then◌else◌,
}
use riscv_em.Base.Words.{wrap, sub_word}
use riscv_em.Types.{Arch, xlen}
use riscv_em.Core.State.{Core, rs1_val, rs2_val, write_rd}
use riscv_em.Core.Words.{signex, ltb_signed, shift_right_signed, shift_op_mask}

unfoldable pub instr_nop : Core → Core
instr_nop c = c

module _ (a : Arch) where
  -- `SIGNEX_BIT_11(rv_core->immediate)`
  abbrev pub immediate_11 : Core → ℕ
  immediate_11 c = signex (xlen a) 12 c.immediate

  unfoldable pub instr_lui : Core → Core
  instr_lui c = write_rd c (wrap (xlen a) (c.immediate * 2 ^ 12))

  unfoldable pub instr_auipc : Core → Core
  instr_auipc c = write_rd c (wrap (xlen a) (c.pc + wrap (xlen a) (c.immediate * 2 ^ 12)))

  unfoldable pub instr_addi : Core → Core
  instr_addi c = write_rd c (wrap (xlen a) (immediate_11 c + rs1_val c))

  unfoldable pub instr_slti : Core → Core
  instr_slti c =
      if ltb_signed (xlen a) (rs1_val c) (immediate_11 c) then write_rd c 1 else write_rd c 0

  unfoldable pub instr_sltiu : Core → Core
  instr_sltiu c = if ltb (rs1_val c) (immediate_11 c) then write_rd c 1 else write_rd c 0

  unfoldable pub instr_xori : Core → Core
  instr_xori c =
      let signed_immediate = immediate_11 c in
      let c' = record c { immediate = signed_immediate } in
      if signed_immediate == 2 ^ xlen a - 1
      then write_rd c' (bit_xor (rs1_val c') (2 ^ xlen a - 1))
      else write_rd c' (bit_xor (rs1_val c') signed_immediate)

  unfoldable pub instr_ori : Core → Core
  instr_ori c =
      let c' = record c { immediate = immediate_11 c } in
      write_rd c' (bit_or (rs1_val c') (immediate_11 c))

  unfoldable pub instr_andi : Core → Core
  instr_andi c =
      let c' = record c { immediate = immediate_11 c } in
      write_rd c' (bit_and (rs1_val c') (immediate_11 c))

  unfoldable pub instr_slli : Core → Core
  instr_slli c = write_rd c (wrap (xlen a) (rs1_val c * 2 ^ bit_and c.immediate (shift_op_mask a)))

  unfoldable pub instr_srai : Core → Core
  instr_srai c =
      write_rd c (shift_right_signed (xlen a) (rs1_val c) (bit_and c.immediate (shift_op_mask a)))

  unfoldable pub instr_srli : Core → Core
  instr_srli c = write_rd c (rs1_val c / 2 ^ bit_and c.immediate (shift_op_mask a))

  unfoldable pub instr_add : Core → Core
  instr_add c = write_rd c (wrap (xlen a) (rs1_val c + rs2_val c))

  unfoldable pub instr_sub : Core → Core
  instr_sub c = write_rd c (sub_word (xlen a) (rs1_val c) (rs2_val c))

  unfoldable pub instr_sll : Core → Core
  instr_sll c = write_rd c (wrap (xlen a) (rs1_val c * 2 ^ bit_and (rs2_val c) (shift_op_mask a)))

  unfoldable pub instr_slt : Core → Core
  instr_slt c = if ltb_signed (xlen a) (rs1_val c) (rs2_val c) then write_rd c 1 else write_rd c 0

  unfoldable pub instr_srl : Core → Core
  instr_srl c = write_rd c (rs1_val c / 2 ^ bit_and (rs2_val c) (shift_op_mask a))

  unfoldable pub instr_sra : Core → Core
  instr_sra c =
      write_rd c (shift_right_signed (xlen a) (rs1_val c) (bit_and (rs2_val c) (shift_op_mask a)))

unfoldable pub instr_sltu : Core → Core
instr_sltu c =
    if c.rs1 == 0
    then (if not (rs2_val c == 0) then write_rd c 1 else write_rd c 0)
    else (if ltb (rs1_val c) (rs2_val c) then write_rd c 1 else write_rd c 0)

unfoldable pub instr_xor : Core → Core
instr_xor c = write_rd c (bit_xor (rs1_val c) (rs2_val c))

unfoldable pub instr_or : Core → Core
instr_or c = write_rd c (bit_or (rs1_val c) (rs2_val c))

unfoldable pub instr_and : Core → Core
instr_and c = write_rd c (bit_and (rs1_val c) (rs2_val c))
