-- ===== src/Core/Tables.antt =====
-- src/core/core.c, with the numbers of src/core/riscv_instr.h: the tables of the instructions on registers and memory.
use riscv_em.Base.{none, some, [], ◌∷◌, ◌++◌}
use riscv_em.Types.{Arch, by_arch}
use riscv_em.Core.Hart.{Access}
use riscv_em.Core.Machine.{Machine}
use riscv_em.Core.Decode.{hook, Table, null, table_of}
use riscv_em.Core.Execution.{Execution, on_core, on_branch, on_hart}
use riscv_em.Base.{Option}
use riscv_em.Core.Prepare.{preparation_func6, preparation_func7}
use riscv_em.Core.Alu.{
  instr_add, instr_addi, instr_and, instr_andi, instr_or, instr_ori, instr_sll, instr_slli,
  instr_slt, instr_slti, instr_sltiu, instr_sltu, instr_sra, instr_srai, instr_srl, instr_srli,
  instr_sub, instr_xor, instr_xori,
}
use riscv_em.Core.AluW.{
  instr_addiw, instr_addw, instr_slliw, instr_sllw, instr_sraiw, instr_sraw, instr_srliw,
  instr_srlw, instr_subw,
}
use riscv_em.Core.Muldiv.{
  instr_div, instr_divu, instr_divuw, instr_divw, instr_mul, instr_mulh, instr_mulhsu, instr_mulhu,
  instr_mulw, instr_rem, instr_remu, instr_remuw, instr_remw,
}
use riscv_em.Core.Branch.{
  instr_beq, instr_bge, instr_bgeu, instr_blt, instr_bltu, instr_bne, instr_jalr,
}
use riscv_em.Core.Load.{
  instr_lb, instr_lbu, instr_ld, instr_lh, instr_lhu, instr_lw, instr_lwu, instr_sb, instr_sd,
  instr_sh, instr_sw,
}

module _ (a : Arch) {β : Type 0} (access : Access (Option (Machine β))) where
  -- `JALR_func3_subcode_list`
  unfoldable pub jalr_list : Table (Execution β)
  jalr_list = table_of ((0x0, hook none (some (on_branch (instr_jalr a))) null) ∷ [])

  -- `BEQ_BNE_BLT_BGE_BLTU_BGEU_func3_subcode_list`
  unfoldable pub branch_list : Table (Execution β)
  branch_list = table_of (
      (0x0, hook none (some (on_branch (instr_beq a))) null)
      ∷ (0x1, hook none (some (on_branch (instr_bne a))) null)
      ∷ (0x4, hook none (some (on_branch (instr_blt a))) null)
      ∷ (0x5, hook none (some (on_branch (instr_bge a))) null)
      ∷ (0x6, hook none (some (on_branch (instr_bltu a))) null)
      ∷ (0x7, hook none (some (on_branch (instr_bgeu a))) null)
      ∷ [])

  -- `LB_LH_LW_LBU_LHU_LWU_LD_func3_subcode_list`
  unfoldable pub load_list : Table (Execution β)
  load_list = table_of (
      ((0x0, hook none (some (on_hart (instr_lb a access))) null)
        ∷ (0x1, hook none (some (on_hart (instr_lh a access))) null)
        ∷ (0x2, hook none (some (on_hart (instr_lw a access))) null)
        ∷ (0x4, hook none (some (on_hart (instr_lbu a access))) null)
        ∷ (0x5, hook none (some (on_hart (instr_lhu a access))) null)
        ∷ [])
      ++ by_arch a ([]) (
          (0x6, hook none (some (on_hart (instr_lwu a access))) null)
          ∷ (0x3, hook none (some (on_hart (instr_ld a access))) null)
          ∷ []))

  -- `SB_SH_SW_SD_func3_subcode_list`
  unfoldable pub store_list : Table (Execution β)
  store_list = table_of (
      ((0x0, hook none (some (on_hart (instr_sb a access))) null)
        ∷ (0x1, hook none (some (on_hart (instr_sh a access))) null)
        ∷ (0x2, hook none (some (on_hart (instr_sw a access))) null)
        ∷ [])
      ++ by_arch a ([]) ((0x3, hook none (some (on_hart (instr_sd a access))) null) ∷ []))

  -- `SRLI_SRAI_func6_subcode_list` and `SRLI_SRAI_func7_subcode_list`
  unfoldable pub shift_right_list : Table (Execution β)
  shift_right_list = table_of (
      ((0x0, hook none (some (on_core (instr_srli a))) null) ∷ [])
      ++ by_arch a ((0x20, hook none (some (on_core (instr_srai a))) null) ∷ [])
          ((0x10, hook none (some (on_core (instr_srai a))) null) ∷ []))

  -- `ADDI_SLTI_SLTIU_XORI_ORI_ANDI_SLLI_SRLI_SRAI_func3_subcode_list`
  unfoldable pub immediate_list : Table (Execution β)
  immediate_list = table_of (
      ((0x0, hook none (some (on_core (instr_addi a))) null)
        ∷ (0x2, hook none (some (on_core (instr_slti a))) null)
        ∷ (0x3, hook none (some (on_core (instr_sltiu a))) null)
        ∷ (0x4, hook none (some (on_core (instr_xori a))) null)
        ∷ (0x6, hook none (some (on_core (instr_ori a))) null)
        ∷ (0x7, hook none (some (on_core (instr_andi a))) null)
        ∷ (0x1, hook none (some (on_core (instr_slli a))) null)
        ∷ [])
      ++ by_arch a ((0x5, hook (some preparation_func7) none shift_right_list) ∷ [])
          ((0x5, hook (some preparation_func6) none shift_right_list) ∷ []))

  -- `ADD_SUB_MUL_func7_subcode_list`
  unfoldable pub add_sub_mul_list : Table (Execution β)
  add_sub_mul_list = table_of (
      (0x00, hook none (some (on_core (instr_add a))) null)
      ∷ (0x20, hook none (some (on_core (instr_sub a))) null)
      ∷ (0x01, hook none (some (on_core (instr_mul a))) null)
      ∷ [])

  -- `SLL_MULH_func7_subcode_list`
  unfoldable pub sll_mulh_list : Table (Execution β)
  sll_mulh_list = table_of (
      (0x00, hook none (some (on_core (instr_sll a))) null)
      ∷ (0x01, hook none (some (on_core (instr_mulh a))) null)
      ∷ [])

  -- `SLT_MULHSU_func7_subcode_list`
  unfoldable pub slt_mulhsu_list : Table (Execution β)
  slt_mulhsu_list = table_of (
      (0x00, hook none (some (on_core (instr_slt a))) null)
      ∷ (0x01, hook none (some (on_core (instr_mulhsu a))) null)
      ∷ [])

  -- `SLTU_MULHU_func7_subcode_list`
  unfoldable pub sltu_mulhu_list : Table (Execution β)
  sltu_mulhu_list = table_of (
      (0x00, hook none (some (on_core instr_sltu)) null)
      ∷ (0x01, hook none (some (on_core (instr_mulhu a))) null)
      ∷ [])

  -- `XOR_DIV_func7_subcode_list`
  unfoldable pub xor_div_list : Table (Execution β)
  xor_div_list = table_of (
      (0x00, hook none (some (on_core instr_xor)) null)
      ∷ (0x01, hook none (some (on_core (instr_div a))) null)
      ∷ [])

  -- `SRL_SRA_DIVU_func7_subcode_list`
  unfoldable pub srl_sra_divu_list : Table (Execution β)
  srl_sra_divu_list = table_of (
      (0x00, hook none (some (on_core (instr_srl a))) null)
      ∷ (0x20, hook none (some (on_core (instr_sra a))) null)
      ∷ (0x01, hook none (some (on_core (instr_divu a))) null)
      ∷ [])

  -- `OR_REM_func7_subcode_list`
  unfoldable pub or_rem_list : Table (Execution β)
  or_rem_list = table_of (
      (0x00, hook none (some (on_core instr_or)) null)
      ∷ (0x01, hook none (some (on_core (instr_rem a))) null)
      ∷ [])

  -- `AND_REMU_func7_subcode_list`
  unfoldable pub and_remu_list : Table (Execution β)
  and_remu_list = table_of (
      (0x00, hook none (some (on_core instr_and)) null)
      ∷ (0x01, hook none (some (on_core instr_remu)) null)
      ∷ [])

  -- `ADD_SUB_SLL_SLT_SLTU_XOR_SRL_SRA_OR_AND_func3_subcode_list`
  unfoldable pub register_list : Table (Execution β)
  register_list = table_of (
      (0x0, hook (some preparation_func7) none add_sub_mul_list)
      ∷ (0x1, hook (some preparation_func7) none sll_mulh_list)
      ∷ (0x2, hook (some preparation_func7) none slt_mulhsu_list)
      ∷ (0x3, hook (some preparation_func7) none sltu_mulhu_list)
      ∷ (0x4, hook (some preparation_func7) none xor_div_list)
      ∷ (0x5, hook (some preparation_func7) none srl_sra_divu_list)
      ∷ (0x6, hook (some preparation_func7) none or_rem_list)
      ∷ (0x7, hook (some preparation_func7) none and_remu_list)
      ∷ [])

  -- `SRLIW_SRAIW_func7_subcode_list`
  unfoldable pub srliw_sraiw_list : Table (Execution β)
  srliw_sraiw_list = table_of (
      (0x0, hook none (some (on_core instr_srliw)) null)
      ∷ (0x20, hook none (some (on_core instr_sraiw)) null)
      ∷ [])

  -- `SLLIW_SRLIW_SRAIW_ADDIW_func3_subcode_list`
  unfoldable pub immediate_w_list : Table (Execution β)
  immediate_w_list = table_of (
      (0x1, hook none (some (on_core instr_slliw)) null)
      ∷ (0x5, hook (some preparation_func7) none srliw_sraiw_list)
      ∷ (0x0, hook none (some (on_core instr_addiw)) null)
      ∷ [])

  -- `SRLW_SRAW_DIVUW_func7_subcode_list`
  unfoldable pub srlw_sraw_divuw_list : Table (Execution β)
  srlw_sraw_divuw_list = table_of (
      (0x00, hook none (some (on_core instr_srlw)) null)
      ∷ (0x20, hook none (some (on_core instr_sraw)) null)
      ∷ (0x01, hook none (some (on_core instr_divuw)) null)
      ∷ [])

  -- `ADDW_SUBW_MULW_func7_subcode_list`
  unfoldable pub addw_subw_mulw_list : Table (Execution β)
  addw_subw_mulw_list = table_of (
      (0x00, hook none (some (on_core instr_addw)) null)
      ∷ (0x20, hook none (some (on_core instr_subw)) null)
      ∷ (0x01, hook none (some (on_core instr_mulw)) null)
      ∷ [])

  -- `ADDW_SUBW_SLLW_SRLW_SRAW_MULW_DIVW_DIVUW_REMW_REMUW_func3_subcode_list`
  unfoldable pub register_w_list : Table (Execution β)
  register_w_list = table_of (
      (0x0, hook (some preparation_func7) none addw_subw_mulw_list)
      ∷ (0x1, hook none (some (on_core instr_sllw)) null)
      ∷ (0x5, hook (some preparation_func7) none srlw_sraw_divuw_list)
      ∷ (0x4, hook none (some (on_core instr_divw)) null)
      ∷ (0x6, hook none (some (on_core instr_remw)) null)
      ∷ (0x7, hook none (some (on_core instr_remuw)) null)
      ∷ [])
