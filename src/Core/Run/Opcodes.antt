-- ===== src/Core/Run/Opcodes.antt =====
-- The tables of src/core/core.c for the privileged and the atomic instructions and for the opcodes
-- are complete, and their functions write at most `rd`.
use riscv_em.Base.{Option, true, refl, inr}
use riscv_em.Types.{Arch, rv32, rv64}
use riscv_em.Core.State.{Core, rs1_val}
use riscv_em.Core.Hart.{Access}
use riscv_em.Core.Machine.{Machine}
use riscv_em.Core.Decode.Complete.{IsComplete, nothing, also, ends, leads, no_preparation, keeps}
use riscv_em.Core.Run.Writes.{
  IsTidy, same-WritesRd, on_branch-IsTidy, on_machine-IsTidy, load-WritesRd, amo-WritesRd,
  store_conditional-WritesRd, jal-AllCores,
}
use riscv_em.Core.Run.Fields.{
  IsDecoding, i_type_preparation-IsDecoding, r_type_preparation-IsDecoding,
  s_type_preparation-IsDecoding, b_type_preparation-IsDecoding, u_type_preparation-IsDecoding,
  j_type_preparation-IsDecoding, preparation_func5-IsDecoding, preparation_func7-IsDecoding,
  preparation_func7_func12_sub5_extended-IsDecoding,
}
use riscv_em.Core.Alu.{instr_auipc, instr_lui, instr_nop}
use riscv_em.Core.Atomic.{
  instr_amoadd_d, instr_amoadd_w, instr_amoand_d, instr_amoand_w, instr_amomax_d, instr_amomax_w,
  instr_amomaxu_d, instr_amomaxu_w, instr_amomin_d, instr_amomin_w, instr_amominu_d,
  instr_amominu_w, instr_amoor_d, instr_amoor_w, instr_amoswap_d, instr_amoswap_w, instr_amoxor_d,
  instr_amoxor_w, instr_lr_d, instr_lr_w, instr_sc_d, instr_sc_w,
}
use riscv_em.Core.System.{
  instr_csrrc, instr_csrrci, instr_csrrs, instr_csrrsi, instr_csrrw, instr_csrrwi, instr_ebreak,
  instr_ecall, instr_mret, instr_sret, instr_uret,
}
use riscv_em.Core.Load.{instr_lw, instr_ld, instr_sw, instr_sd, store_rs2}
use riscv_em.Trap.Regs.{m_bank, s_bank}
use riscv_em.Core.Run.System.{
  csr_rw_x-AllPairs, csr_rs_x-AllPairs, csr_rc_x-AllPairs, return_to-AllPairs,
}
use riscv_em.Core.Opcodes.{
  environment_list, sret_wfi_list, privileged_list, csr_list, atomic_w_list, atomic_d_list,
  atomic_list, rv_opcode_list,
}
use riscv_em.Core.Run.Tables.{
  jalr_list-IsComplete, branch_list-IsComplete, load_list-IsComplete, store_list-IsComplete,
  immediate_list-IsComplete, register_list-IsComplete, immediate_w_list-IsComplete,
  register_w_list-IsComplete,
}

pub environment_list-IsComplete :
    (a : Arch) {β : Type 0} (access : Access (Option (Machine β))) (o : Core)
    → IsComplete (IsDecoding o) (IsTidy β) (environment_list a access)
unfolding environment_list instr_ecall instr_ebreak instr_uret
environment_list-IsComplete a {β = β} access o =
    also (ends no_preparation (on_machine-IsTidy β (instr_ecall a) (λ c s. same-WritesRd c))) (
      also (ends no_preparation (on_machine-IsTidy β (instr_ebreak a) (λ c s. same-WritesRd c)))
        (also (ends no_preparation (on_machine-IsTidy β (instr_uret a) (λ c s. tt))) (nothing)))

pub sret_wfi_list-IsComplete :
    (a : Arch) {β : Type 0} (access : Access (Option (Machine β))) (o : Core)
    → IsComplete (IsDecoding o) (IsTidy β) (sret_wfi_list a access)
unfolding sret_wfi_list instr_sret instr_nop
sret_wfi_list-IsComplete a {β = β} access o =
    also
      (ends no_preparation
        (on_machine-IsTidy β (instr_sret a) (λ c s. return_to-AllPairs a s_bank c s)))
      (also (ends no_preparation (λ h. same-WritesRd h.core)) (nothing))

pub privileged_list-IsComplete :
    (a : Arch) {β : Type 0} (access : Access (Option (Machine β))) (o : Core)
    → IsComplete (IsDecoding o) (IsTidy β) (privileged_list a access)
unfolding privileged_list instr_mret instr_nop
privileged_list-IsComplete a {β = β} access o =
    also
      (leads (preparation_func7_func12_sub5_extended-IsDecoding o)
        (environment_list-IsComplete a access o))
      (also
        (leads (preparation_func7_func12_sub5_extended-IsDecoding o)
          (sret_wfi_list-IsComplete a access o))
        (also
          (ends no_preparation
            (on_machine-IsTidy β (instr_mret a) (λ c s. return_to-AllPairs a m_bank c s)))
          (also (ends no_preparation (λ h. same-WritesRd h.core)) (nothing))))

pub csr_list-IsComplete :
    (a : Arch) {β : Type 0} (access : Access (Option (Machine β))) (o : Core)
    → IsComplete (IsDecoding o) (IsTidy β) (csr_list a access)
unfolding csr_list instr_csrrw instr_csrrs instr_csrrc instr_csrrwi instr_csrrsi instr_csrrci
csr_list-IsComplete a {β = β} access o =
    also
      (ends no_preparation
        (on_machine-IsTidy β (instr_csrrw a) (λ c s. csr_rw_x-AllPairs a (rs1_val c) c s)))
      (also
        (ends no_preparation
          (on_machine-IsTidy β (instr_csrrs a) (λ c s. csr_rs_x-AllPairs a (rs1_val c) c s)))
        (also
          (ends no_preparation
            (on_machine-IsTidy β (instr_csrrc a) (λ c s. csr_rc_x-AllPairs a (rs1_val c) c s)))
          (also
            (ends no_preparation
              (on_machine-IsTidy β (instr_csrrwi a) (λ c s. csr_rw_x-AllPairs a c.rs1 c s)))
            (also
              (ends no_preparation
                (on_machine-IsTidy β (instr_csrrsi a) (λ c s. csr_rs_x-AllPairs a c.rs1 c s)))
              (also
                (ends no_preparation
                  (on_machine-IsTidy β (instr_csrrci a) (λ c s. csr_rc_x-AllPairs a c.rs1 c s)))
                (also
                  (leads (preparation_func7-IsDecoding o) (privileged_list-IsComplete a access o))
                  (nothing)))))))

pub atomic_w_list-IsComplete :
    (a : Arch) {β : Type 0} (access : Access (Option (Machine β))) (o : Core)
    → IsComplete (IsDecoding o) (IsTidy β) (atomic_w_list a access)
unfolding atomic_w_list instr_lr_w instr_lw instr_sc_w instr_sw store_rs2 instr_amoswap_w
    instr_amoadd_w instr_amoxor_w instr_amoand_w instr_amoor_w instr_amomin_w instr_amomax_w
    instr_amominu_w instr_amomaxu_w
atomic_w_list-IsComplete a {β = β} access o =
    also
      (ends no_preparation (λ h.
        load-WritesRd a access _ _ (record h { lr_address = rs1_val h.core; lr_valid = true })))
      (also (ends no_preparation (λ h. store_conditional-WritesRd a access _ (λ h. refl) h)) (
        also
          (ends no_preparation
            (λ h. amo-WritesRd a access _ _ _ (λ h. load-WritesRd a access _ _ h) h))
          (also
            (ends no_preparation
              (λ h. amo-WritesRd a access _ _ _ (λ h. load-WritesRd a access _ _ h) h))
            (also
              (ends no_preparation
                (λ h. amo-WritesRd a access _ _ _ (λ h. load-WritesRd a access _ _ h) h))
              (also
                (ends no_preparation
                  (λ h. amo-WritesRd a access _ _ _ (λ h. load-WritesRd a access _ _ h) h))
                (also
                  (ends no_preparation
                    (λ h. amo-WritesRd a access _ _ _ (λ h. load-WritesRd a access _ _ h) h))
                  (also
                    (ends no_preparation
                      (λ h. amo-WritesRd a access _ _ _ (λ h. load-WritesRd a access _ _ h) h))
                    (also
                      (ends no_preparation
                        (λ h. amo-WritesRd a access _ _ _ (λ h. load-WritesRd a access _ _ h) h))
                      (also
                        (ends no_preparation
                          (λ h. amo-WritesRd a access _ _ _ (λ h. load-WritesRd a access _ _ h) h))
                        (also
                          (ends no_preparation (λ h.
                            amo-WritesRd a access _ _ _ (λ h. load-WritesRd a access _ _ h) h))
                          (nothing)))))))))))

pub atomic_d_list-IsComplete :
    (a : Arch) {β : Type 0} (access : Access (Option (Machine β))) (o : Core)
    → IsComplete (IsDecoding o) (IsTidy β) (atomic_d_list a access)
unfolding atomic_d_list instr_lr_d instr_ld instr_sc_d instr_sd store_rs2 instr_amoswap_d
    instr_amoadd_d instr_amoxor_d instr_amoand_d instr_amoor_d instr_amomin_d instr_amomax_d
    instr_amominu_d instr_amomaxu_d
atomic_d_list-IsComplete a {β = β} access o =
    also
      (ends no_preparation (λ h.
        load-WritesRd a access _ _ (record h { lr_address = rs1_val h.core; lr_valid = true })))
      (also (ends no_preparation (λ h. store_conditional-WritesRd a access _ (λ h. refl) h)) (
        also
          (ends no_preparation
            (λ h. amo-WritesRd a access _ _ _ (λ h. load-WritesRd a access _ _ h) h))
          (also
            (ends no_preparation
              (λ h. amo-WritesRd a access _ _ _ (λ h. load-WritesRd a access _ _ h) h))
            (also
              (ends no_preparation
                (λ h. amo-WritesRd a access _ _ _ (λ h. load-WritesRd a access _ _ h) h))
              (also
                (ends no_preparation
                  (λ h. amo-WritesRd a access _ _ _ (λ h. load-WritesRd a access _ _ h) h))
                (also
                  (ends no_preparation
                    (λ h. amo-WritesRd a access _ _ _ (λ h. load-WritesRd a access _ _ h) h))
                  (also
                    (ends no_preparation
                      (λ h. amo-WritesRd a access _ _ _ (λ h. load-WritesRd a access _ _ h) h))
                    (also
                      (ends no_preparation
                        (λ h. amo-WritesRd a access _ _ _ (λ h. load-WritesRd a access _ _ h) h))
                      (also
                        (ends no_preparation
                          (λ h. amo-WritesRd a access _ _ _ (λ h. load-WritesRd a access _ _ h) h))
                        (also
                          (ends no_preparation (λ h.
                            amo-WritesRd a access _ _ _ (λ h. load-WritesRd a access _ _ h) h))
                          (nothing)))))))))))

pub atomic_list-IsComplete :
    (a : Arch) {β : Type 0} (access : Access (Option (Machine β))) (o : Core)
    → IsComplete (IsDecoding o) (IsTidy β) (atomic_list a access)
unfolding atomic_list
atomic_list-IsComplete rv32 {β = β} access o =
    also (leads (preparation_func5-IsDecoding o) (atomic_w_list-IsComplete rv32 access o)) (nothing)
atomic_list-IsComplete rv64 {β = β} access o =
    also (leads (preparation_func5-IsDecoding o) (atomic_w_list-IsComplete rv64 access o)) (
      also (leads (preparation_func5-IsDecoding o) (atomic_d_list-IsComplete rv64 access o))
        (nothing))

pub rv_opcode_list-IsComplete :
    (a : Arch) {β : Type 0} (access : Access (Option (Machine β))) (o : Core)
    → IsComplete (IsDecoding o) (IsTidy β) (rv_opcode_list a access)
unfolding rv_opcode_list instr_lui instr_auipc instr_nop
rv_opcode_list-IsComplete rv32 {β = β} access o =
    also
      (ends (keeps (u_type_preparation-IsDecoding rv32 o))
        (λ h. record { registers = inr (_, refl); same_instruction = refl }))
      (also
        (ends (keeps (u_type_preparation-IsDecoding rv32 o))
          (λ h. record { registers = inr (_, refl); same_instruction = refl }))
        (also
          (ends (keeps (j_type_preparation-IsDecoding rv32 o))
            (on_branch-IsTidy β _ (λ c. jal-AllCores rv32 c)))
          (also (leads (i_type_preparation-IsDecoding o) (jalr_list-IsComplete rv32 access o)) (
            also
              (leads (b_type_preparation-IsDecoding rv32 o) (branch_list-IsComplete rv32 access o))
              (also (leads (i_type_preparation-IsDecoding o) (load_list-IsComplete rv32 access o)) (
                also (leads (s_type_preparation-IsDecoding o) (store_list-IsComplete rv32 access o))
                  (also
                    (leads (i_type_preparation-IsDecoding o)
                      (immediate_list-IsComplete rv32 access o))
                    (also
                      (leads (r_type_preparation-IsDecoding o)
                        (register_list-IsComplete rv32 access o))
                      (also (ends no_preparation (λ h. same-WritesRd h.core)) (
                        also
                          (leads (i_type_preparation-IsDecoding o)
                            (csr_list-IsComplete rv32 access o))
                          (also
                            (leads (r_type_preparation-IsDecoding o)
                              (atomic_list-IsComplete rv32 access o))
                            (nothing))))))))))))
rv_opcode_list-IsComplete rv64 {β = β} access o =
    also
      (ends (keeps (u_type_preparation-IsDecoding rv64 o))
        (λ h. record { registers = inr (_, refl); same_instruction = refl }))
      (also
        (ends (keeps (u_type_preparation-IsDecoding rv64 o))
          (λ h. record { registers = inr (_, refl); same_instruction = refl }))
        (also
          (ends (keeps (j_type_preparation-IsDecoding rv64 o))
            (on_branch-IsTidy β _ (λ c. jal-AllCores rv64 c)))
          (also (leads (i_type_preparation-IsDecoding o) (jalr_list-IsComplete rv64 access o)) (
            also
              (leads (b_type_preparation-IsDecoding rv64 o) (branch_list-IsComplete rv64 access o))
              (also (leads (i_type_preparation-IsDecoding o) (load_list-IsComplete rv64 access o)) (
                also (leads (s_type_preparation-IsDecoding o) (store_list-IsComplete rv64 access o))
                  (also
                    (leads (i_type_preparation-IsDecoding o)
                      (immediate_list-IsComplete rv64 access o))
                    (also
                      (leads (r_type_preparation-IsDecoding o)
                        (register_list-IsComplete rv64 access o))
                      (also (ends no_preparation (λ h. same-WritesRd h.core)) (
                        also
                          (leads (i_type_preparation-IsDecoding o)
                            (csr_list-IsComplete rv64 access o))
                          (also
                            (leads (r_type_preparation-IsDecoding o)
                              (atomic_list-IsComplete rv64 access o))
                            (also
                              (leads (i_type_preparation-IsDecoding o)
                                (immediate_w_list-IsComplete rv64 access o))
                              (also
                                (leads (r_type_preparation-IsDecoding o)
                                  (register_w_list-IsComplete rv64 access o))
                                (nothing))))))))))))))
