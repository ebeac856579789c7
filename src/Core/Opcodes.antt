-- ===== src/Core/Opcodes.antt =====
-- src/core/core.c, with the numbers of src/core/riscv_instr.h: the tables of the privileged and the atomic instructions, and that of the opcodes.
use riscv_em.Base.{none, some, [], ◌∷◌, ◌++◌}
use riscv_em.Types.{Arch, by_arch}
use riscv_em.Core.Hart.{Access}
use riscv_em.Core.Machine.{Machine}
use riscv_em.Core.Decode.{hook, Table, null, table_of}
use riscv_em.Core.Execution.{Execution, on_core, on_branch, on_hart, on_machine}
use riscv_em.Base.{Option}
use riscv_em.Core.Prepare.{
  b_type_preparation, i_type_preparation, j_type_preparation, preparation_func5, preparation_func7,
  preparation_func7_func12_sub5_extended, r_type_preparation, s_type_preparation,
  u_type_preparation,
}
use riscv_em.Core.Alu.{instr_auipc, instr_lui, instr_nop}
use riscv_em.Core.Branch.{instr_jal}
use riscv_em.Core.Atomic.{
  instr_amoadd_d, instr_amoadd_w, instr_amoand_d, instr_amoand_w, instr_amomax_d, instr_amomax_w,
  instr_amomaxu_d, instr_amomaxu_w, instr_amomin_d, instr_amomin_w, instr_amominu_d,
  instr_amominu_w, instr_amoor_d, instr_amoor_w, instr_amoswap_d, instr_amoswap_w, instr_amoxor_d,
  instr_amoxor_w, instr_lr_d, instr_lr_w, instr_sc_d, instr_sc_w,
}
use riscv_em.Core.System.{
  instr_csrrc, instr_csrrci, instr_csrrs, instr_csrrsi, instr_csrrw, instr_csrrwi, instr_ebreak,
  instr_ecall, instr_mret, instr_sret, instr_uret,
}
use riscv_em.Core.Tables.{
  jalr_list, branch_list, load_list, store_list, immediate_list, register_list, immediate_w_list,
  register_w_list,
}

module _ (a : Arch) {β : Type 0} (access : Access (Option (Machine β))) where
  -- `ECALL_EBREAK_URET_func12_sub5_subcode_list`
  unfoldable pub environment_list : Table (Execution β)
  environment_list = table_of (
      (0x0, hook none (some (on_machine (instr_ecall a))) null)
      ∷ (0x1, hook none (some (on_machine (instr_ebreak a))) null)
      ∷ (0x2, hook none (some (on_machine (instr_uret a))) null)
      ∷ [])

  -- `SRET_WFI_func12_sub5_subcode_list`
  unfoldable pub sret_wfi_list : Table (Execution β)
  sret_wfi_list = table_of (
      (0x2, hook none (some (on_machine (instr_sret a))) null)
      ∷ (0x5, hook none (some (on_core instr_nop)) null)
      ∷ [])

  -- `ECALL_EBREAK_URET_SRET_MRET_WFI_SFENCEVMA_func7_subcode_list`
  unfoldable pub privileged_list : Table (Execution β)
  privileged_list = table_of (
      (0x0, hook (some preparation_func7_func12_sub5_extended) none environment_list)
      ∷ (0x8, hook (some preparation_func7_func12_sub5_extended) none sret_wfi_list)
      ∷ (0x18, hook none (some (on_machine (instr_mret a))) null)
      ∷ (0x9, hook none (some (on_core instr_nop)) null)
      ∷ [])

  -- `CSRRW_CSRRS_CSRRC_CSRRWI_CSRRSI_CSRRCI_ECALL_EBREAK_URET_SRET_MRET_WFI_SFENCEVMA_func3_subcode_list`
  unfoldable pub csr_list : Table (Execution β)
  csr_list = table_of (
      (0x1, hook none (some (on_machine (instr_csrrw a))) null)
      ∷ (0x2, hook none (some (on_machine (instr_csrrs a))) null)
      ∷ (0x3, hook none (some (on_machine (instr_csrrc a))) null)
      ∷ (0x5, hook none (some (on_machine (instr_csrrwi a))) null)
      ∷ (0x6, hook none (some (on_machine (instr_csrrsi a))) null)
      ∷ (0x7, hook none (some (on_machine (instr_csrrci a))) null)
      ∷ (0x0, hook (some preparation_func7) none privileged_list)
      ∷ [])

  -- `W_LR_SC_SWAP_ADD_XOR_AND_OR_MIN_MAX_MINU_MAXU_func5_subcode_list`
  unfoldable pub atomic_w_list : Table (Execution β)
  atomic_w_list = table_of (
      (0x2, hook none (some (on_hart (instr_lr_w a access))) null)
      ∷ (0x3, hook none (some (on_hart (instr_sc_w a access))) null)
      ∷ (0x1, hook none (some (on_hart (instr_amoswap_w a access))) null)
      ∷ (0x0, hook none (some (on_hart (instr_amoadd_w a access))) null)
      ∷ (0x4, hook none (some (on_hart (instr_amoxor_w a access))) null)
      ∷ (0xC, hook none (some (on_hart (instr_amoand_w a access))) null)
      ∷ (0x8, hook none (some (on_hart (instr_amoor_w a access))) null)
      ∷ (0x10, hook none (some (on_hart (instr_amomin_w a access))) null)
      ∷ (0x14, hook none (some (on_hart (instr_amomax_w a access))) null)
      ∷ (0x18, hook none (some (on_hart (instr_amominu_w a access))) null)
      ∷ (0x1C, hook none (some (on_hart (instr_amomaxu_w a access))) null)
      ∷ [])

  -- `D_LR_SC_SWAP_ADD_XOR_AND_OR_MIN_MAX_MINU_MAXU_func5_subcode_list`
  unfoldable pub atomic_d_list : Table (Execution β)
  atomic_d_list = table_of (
      (0x2, hook none (some (on_hart (instr_lr_d a access))) null)
      ∷ (0x3, hook none (some (on_hart (instr_sc_d a access))) null)
      ∷ (0x1, hook none (some (on_hart (instr_amoswap_d a access))) null)
      ∷ (0x0, hook none (some (on_hart (instr_amoadd_d a access))) null)
      ∷ (0x4, hook none (some (on_hart (instr_amoxor_d a access))) null)
      ∷ (0xC, hook none (some (on_hart (instr_amoand_d a access))) null)
      ∷ (0x8, hook none (some (on_hart (instr_amoor_d a access))) null)
      ∷ (0x10, hook none (some (on_hart (instr_amomin_d a access))) null)
      ∷ (0x14, hook none (some (on_hart (instr_amomax_d a access))) null)
      ∷ (0x18, hook none (some (on_hart (instr_amominu_d a access))) null)
      ∷ (0x1C, hook none (some (on_hart (instr_amomaxu_d a access))) null)
      ∷ [])

  -- `W_LR_SC_SWAP_ADD_XOR_AND_OR_MIN_MAX_MINU_MAXU_func3_subcode_list`
  unfoldable pub atomic_list : Table (Execution β)
  atomic_list = table_of (
      ((0x2, hook (some preparation_func5) none atomic_w_list) ∷ [])
      ++ by_arch a ([]) ((0x3, hook (some preparation_func5) none atomic_d_list) ∷ []))

  -- `RV_opcode_list`
  unfoldable pub rv_opcode_list : Table (Execution β)
  rv_opcode_list = table_of (
      ((0x37, hook (some (u_type_preparation a)) (some (on_core (instr_lui a))) null)
        ∷ (0x17, hook (some (u_type_preparation a)) (some (on_core (instr_auipc a))) null)
        ∷ (0x6F, hook (some (j_type_preparation a)) (some (on_branch (instr_jal a))) null)
        ∷ (0x67, hook (some i_type_preparation) none (jalr_list a access))
        ∷ (0x63, hook (some (b_type_preparation a)) none (branch_list a access))
        ∷ (0x03, hook (some i_type_preparation) none (load_list a access))
        ∷ (0x23, hook (some s_type_preparation) none (store_list a access))
        ∷ (0x13, hook (some i_type_preparation) none (immediate_list a access))
        ∷ (0x33, hook (some r_type_preparation) none (register_list a access))
        ∷ (0x0F, hook none (some (on_core instr_nop)) null)
        ∷ (0x73, hook (some i_type_preparation) none csr_list)
        ∷ (0x2F, hook (some r_type_preparation) none atomic_list)
        ∷ [])
      ++ by_arch a ([]) (
          (0x1B, hook (some i_type_preparation) none (immediate_w_list a access))
          ∷ (0x3B, hook (some r_type_preparation) none (register_w_list a access))
          ∷ []))
