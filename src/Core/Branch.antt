-- ===== src/Core/Branch.antt =====
-- src/core/core.c: the jumps and the conditional branches. `none` is the end of the program in
-- `die_msg`; the trap that is prepared after it is never reached.
pub mod Aligned
use riscv_em.Base.{
  ℕ, ◌+◌, ◌-◌, ◌^◌, bit_and, Bool, not, ltb, ◌==◌, if◌then◌else◌, Option, none, some,
}
use riscv_em.Base.Words.{wrap, complement}
use riscv_em.Types.{Arch, xlen}
use riscv_em.Core.State.{Core, rs1_val, rs2_val, write_rd}
use riscv_em.Core.Words.{signex, ltb_signed}

-- `ADDR_MISALIGNED`
unfoldable pub addr_misaligned : ℕ → Bool
addr_misaligned addr = not (bit_and addr 0x3 == 0)

module _ (a : Arch) where
  unfoldable pub instr_jal : Core → Option Core
  instr_jal c =
      let linked = write_rd c (wrap (xlen a) (c.pc + 4)) in
      if addr_misaligned c.jump_offset
      then none
      else some (record linked { next_pc = wrap (xlen a) (c.pc + c.jump_offset) })

  unfoldable pub instr_jalr : Core → Option Core
  instr_jalr c =
      let curr_pc = wrap (xlen a) (c.pc + 4) in
      let jump_offset = signex (xlen a) 12 c.immediate in
      let next_pc =
        bit_and (wrap (xlen a) (rs1_val c + jump_offset)) (complement (xlen a) (2 ^ 0)) in
      let jumped = record c { jump_offset = jump_offset; next_pc = next_pc } in
      if addr_misaligned next_pc then none else some (write_rd jumped curr_pc)

  -- The body that the six branches share.
  unfoldable pub branch_if : Bool → Core → Option Core
  branch_if taken c =
      if taken
      then (if addr_misaligned c.jump_offset
          then none
          else some (record c { next_pc = wrap (xlen a) (c.pc + c.jump_offset) }))
      else some c

  unfoldable pub instr_beq : Core → Option Core
  instr_beq c = branch_if (rs1_val c == rs2_val c) c

  unfoldable pub instr_bne : Core → Option Core
  instr_bne c = branch_if (not (rs1_val c == rs2_val c)) c

  unfoldable pub instr_blt : Core → Option Core
  instr_blt c = branch_if (ltb_signed (xlen a) (rs1_val c) (rs2_val c)) c

  unfoldable pub instr_bge : Core → Option Core
  instr_bge c = branch_if (not (ltb_signed (xlen a) (rs1_val c) (rs2_val c))) c

  unfoldable pub instr_bltu : Core → Option Core
  instr_bltu c = branch_if (ltb (rs1_val c) (rs2_val c)) c

  unfoldable pub instr_bgeu : Core → Option Core
  instr_bgeu c = branch_if (not (ltb (rs1_val c) (rs2_val c))) c
