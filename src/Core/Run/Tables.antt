-- ===== src/Core/Run/Tables.antt =====
-- The tables of src/core/core.c for the instructions on registers and memory are complete, and their
-- functions write at most `rd`.
use riscv_em.Base.{Option, refl, inr}
use riscv_em.Types.{Arch, rv32, rv64}
use riscv_em.Core.State.{Core}
use riscv_em.Core.Hart.{Access}
use riscv_em.Core.Machine.{Machine}
use riscv_em.Core.Decode.Complete.{IsComplete, nothing, also, ends, leads, no_preparation}
use riscv_em.Core.Run.Writes.{
  IsTidy, on_branch-IsTidy, load-WritesRd, store-WritesRd, branch_if-AllCores, jalr-AllCores,
}
use riscv_em.Core.Run.Compare.{
  slt-WritesRd, slti-WritesRd, sltiu-WritesRd, sltu-WritesRd, xori-WritesRd,
}
use riscv_em.Core.Run.Fields.{
  IsDecoding, preparation_func6-IsDecoding, preparation_func7-IsDecoding,
}
use riscv_em.Core.Alu.{
  instr_add, instr_addi, instr_and, instr_andi, instr_or, instr_ori, instr_sll, instr_slli,
  instr_sra, instr_srai, instr_srl, instr_srli, instr_sub, instr_xor,
}
use riscv_em.Core.AluW.{
  instr_addiw, instr_addw, instr_slliw, instr_sllw, instr_sraiw, instr_sraw, instr_srliw,
  instr_srlw, instr_subw,
}
use riscv_em.Core.Muldiv.{
  instr_div, instr_divu, instr_divuw, instr_divw, instr_mul, instr_mulh, instr_mulhsu, instr_mulhu,
  instr_mulw, instr_rem, instr_remu, instr_remuw, instr_remw,
}
use riscv_em.Core.Branch.{instr_beq, instr_bge, instr_bgeu, instr_blt, instr_bltu, instr_bne}
use riscv_em.Core.Load.{
  instr_lb, instr_lbu, instr_ld, instr_lh, instr_lhu, instr_lw, instr_lwu, instr_sb, instr_sd,
  instr_sh, instr_sw,
}
use riscv_em.Core.Tables.{
  jalr_list, branch_list, load_list, store_list, shift_right_list, immediate_list, add_sub_mul_list,
  sll_mulh_list, slt_mulhsu_list, sltu_mulhu_list, xor_div_list, srl_sra_divu_list, or_rem_list,
  and_remu_list, register_list, srliw_sraiw_list, immediate_w_list, srlw_sraw_divuw_list,
  addw_subw_mulw_list, register_w_list,
}

pub jalr_list-IsComplete :
    (a : Arch) {β : Type 0} (access : Access (Option (Machine β))) (o : Core)
    → IsComplete (IsDecoding o) (IsTidy β) (jalr_list a access)
unfolding jalr_list
jalr_list-IsComplete a {β = β} access o =
    also (ends no_preparation (on_branch-IsTidy β _ (λ c. jalr-AllCores a c))) (nothing)

pub branch_list-IsComplete :
    (a : Arch) {β : Type 0} (access : Access (Option (Machine β))) (o : Core)
    → IsComplete (IsDecoding o) (IsTidy β) (branch_list a access)
unfolding branch_list instr_beq instr_bne instr_blt instr_bge instr_bltu instr_bgeu
branch_list-IsComplete a {β = β} access o =
    also (ends no_preparation (on_branch-IsTidy β _ (λ c. branch_if-AllCores a _ c))) (
      also (ends no_preparation (on_branch-IsTidy β _ (λ c. branch_if-AllCores a _ c))) (
        also (ends no_preparation (on_branch-IsTidy β _ (λ c. branch_if-AllCores a _ c))) (
          also (ends no_preparation (on_branch-IsTidy β _ (λ c. branch_if-AllCores a _ c))) (
            also (ends no_preparation (on_branch-IsTidy β _ (λ c. branch_if-AllCores a _ c))) (
              also (ends no_preparation (on_branch-IsTidy β _ (λ c. branch_if-AllCores a _ c)))
                (nothing))))))

pub load_list-IsComplete :
    (a : Arch) {β : Type 0} (access : Access (Option (Machine β))) (o : Core)
    → IsComplete (IsDecoding o) (IsTidy β) (load_list a access)
unfolding load_list instr_lb instr_lh instr_lw instr_lbu instr_lhu instr_lwu instr_ld
load_list-IsComplete rv32 {β = β} access o =
    also (ends no_preparation (λ h. load-WritesRd rv32 access _ _ h)) (
      also (ends no_preparation (λ h. load-WritesRd rv32 access _ _ h)) (
        also (ends no_preparation (λ h. load-WritesRd rv32 access _ _ h)) (
          also (ends no_preparation (λ h. load-WritesRd rv32 access _ _ h))
            (also (ends no_preparation (λ h. load-WritesRd rv32 access _ _ h)) (nothing)))))
load_list-IsComplete rv64 {β = β} access o =
    also (ends no_preparation (λ h. load-WritesRd rv64 access _ _ h)) (
      also (ends no_preparation (λ h. load-WritesRd rv64 access _ _ h)) (
        also (ends no_preparation (λ h. load-WritesRd rv64 access _ _ h)) (
          also (ends no_preparation (λ h. load-WritesRd rv64 access _ _ h)) (
            also (ends no_preparation (λ h. load-WritesRd rv64 access _ _ h)) (
              also (ends no_preparation (λ h. load-WritesRd rv64 access _ _ h))
                (also (ends no_preparation (λ h. load-WritesRd rv64 access _ _ h)) (nothing)))))))

pub store_list-IsComplete :
    (a : Arch) {β : Type 0} (access : Access (Option (Machine β))) (o : Core)
    → IsComplete (IsDecoding o) (IsTidy β) (store_list a access)
unfolding store_list instr_sb instr_sh instr_sw instr_sd
store_list-IsComplete rv32 {β = β} access o =
    also (ends no_preparation (λ h. store-WritesRd rv32 access _ h)) (
      also (ends no_preparation (λ h. store-WritesRd rv32 access _ h))
        (also (ends no_preparation (λ h. store-WritesRd rv32 access _ h)) (nothing)))
store_list-IsComplete rv64 {β = β} access o =
    also (ends no_preparation (λ h. store-WritesRd rv64 access _ h)) (
      also (ends no_preparation (λ h. store-WritesRd rv64 access _ h)) (
        also (ends no_preparation (λ h. store-WritesRd rv64 access _ h))
          (also (ends no_preparation (λ h. store-WritesRd rv64 access _ h)) (nothing))))

pub shift_right_list-IsComplete :
    (a : Arch) {β : Type 0} (access : Access (Option (Machine β))) (o : Core)
    → IsComplete (IsDecoding o) (IsTidy β) (shift_right_list a access)
unfolding shift_right_list instr_srli instr_srai
shift_right_list-IsComplete rv32 {β = β} access o =
    also (ends no_preparation (λ h. record { registers = inr (_, refl); same_instruction = refl }))
      (also
        (ends no_preparation (λ h. record { registers = inr (_, refl); same_instruction = refl }))
        (nothing))
shift_right_list-IsComplete rv64 {β = β} access o =
    also (ends no_preparation (λ h. record { registers = inr (_, refl); same_instruction = refl }))
      (also
        (ends no_preparation (λ h. record { registers = inr (_, refl); same_instruction = refl }))
        (nothing))

pub immediate_list-IsComplete :
    (a : Arch) {β : Type 0} (access : Access (Option (Machine β))) (o : Core)
    → IsComplete (IsDecoding o) (IsTidy β) (immediate_list a access)
unfolding immediate_list instr_addi instr_ori instr_andi instr_slli
immediate_list-IsComplete rv32 {β = β} access o =
    also (ends no_preparation (λ h. record { registers = inr (_, refl); same_instruction = refl }))
      (also (ends no_preparation (λ h. slti-WritesRd rv32 h.core)) (
        also (ends no_preparation (λ h. sltiu-WritesRd rv32 h.core)) (
          also (ends no_preparation (λ h. xori-WritesRd rv32 h.core)) (
            also
              (ends no_preparation
                (λ h. record { registers = inr (_, refl); same_instruction = refl }))
              (also
                (ends no_preparation
                  (λ h. record { registers = inr (_, refl); same_instruction = refl }))
                (also
                  (ends no_preparation
                    (λ h. record { registers = inr (_, refl); same_instruction = refl }))
                  (also
                    (leads (preparation_func7-IsDecoding o)
                      (shift_right_list-IsComplete rv32 access o))
                    (nothing))))))))
immediate_list-IsComplete rv64 {β = β} access o =
    also (ends no_preparation (λ h. record { registers = inr (_, refl); same_instruction = refl }))
      (also (ends no_preparation (λ h. slti-WritesRd rv64 h.core)) (
        also (ends no_preparation (λ h. sltiu-WritesRd rv64 h.core)) (
          also (ends no_preparation (λ h. xori-WritesRd rv64 h.core)) (
            also
              (ends no_preparation
                (λ h. record { registers = inr (_, refl); same_instruction = refl }))
              (also
                (ends no_preparation
                  (λ h. record { registers = inr (_, refl); same_instruction = refl }))
                (also
                  (ends no_preparation
                    (λ h. record { registers = inr (_, refl); same_instruction = refl }))
                  (also
                    (leads (preparation_func6-IsDecoding o)
                      (shift_right_list-IsComplete rv64 access o))
                    (nothing))))))))

pub add_sub_mul_list-IsComplete :
    (a : Arch) {β : Type 0} (access : Access (Option (Machine β))) (o : Core)
    → IsComplete (IsDecoding o) (IsTidy β) (add_sub_mul_list a access)
unfolding add_sub_mul_list instr_add instr_sub instr_mul
add_sub_mul_list-IsComplete a {β = β} access o =
    also (ends no_preparation (λ h. record { registers = inr (_, refl); same_instruction = refl }))
      (also
        (ends no_preparation (λ h. record { registers = inr (_, refl); same_instruction = refl }))
        (also
          (ends no_preparation (λ h. record { registers = inr (_, refl); same_instruction = refl }))
          (nothing)))

pub sll_mulh_list-IsComplete :
    (a : Arch) {β : Type 0} (access : Access (Option (Machine β))) (o : Core)
    → IsComplete (IsDecoding o) (IsTidy β) (sll_mulh_list a access)
unfolding sll_mulh_list instr_sll instr_mulh
sll_mulh_list-IsComplete a {β = β} access o =
    also (ends no_preparation (λ h. record { registers = inr (_, refl); same_instruction = refl }))
      (also
        (ends no_preparation (λ h. record { registers = inr (_, refl); same_instruction = refl }))
        (nothing))

pub slt_mulhsu_list-IsComplete :
    (a : Arch) {β : Type 0} (access : Access (Option (Machine β))) (o : Core)
    → IsComplete (IsDecoding o) (IsTidy β) (slt_mulhsu_list a access)
unfolding slt_mulhsu_list instr_mulhsu
slt_mulhsu_list-IsComplete a {β = β} access o =
    also (ends no_preparation (λ h. slt-WritesRd a h.core)) (
      also
        (ends no_preparation (λ h. record { registers = inr (_, refl); same_instruction = refl }))
        (nothing))

pub sltu_mulhu_list-IsComplete :
    (a : Arch) {β : Type 0} (access : Access (Option (Machine β))) (o : Core)
    → IsComplete (IsDecoding o) (IsTidy β) (sltu_mulhu_list a access)
unfolding sltu_mulhu_list instr_mulhu
sltu_mulhu_list-IsComplete a {β = β} access o =
    also (ends no_preparation (λ h. sltu-WritesRd h.core)) (
      also
        (ends no_preparation (λ h. record { registers = inr (_, refl); same_instruction = refl }))
        (nothing))

pub xor_div_list-IsComplete :
    (a : Arch) {β : Type 0} (access : Access (Option (Machine β))) (o : Core)
    → IsComplete (IsDecoding o) (IsTidy β) (xor_div_list a access)
unfolding xor_div_list instr_xor instr_div
xor_div_list-IsComplete a {β = β} access o =
    also (ends no_preparation (λ h. record { registers = inr (_, refl); same_instruction = refl }))
      (also
        (ends no_preparation (λ h. record { registers = inr (_, refl); same_instruction = refl }))
        (nothing))

pub srl_sra_divu_list-IsComplete :
    (a : Arch) {β : Type 0} (access : Access (Option (Machine β))) (o : Core)
    → IsComplete (IsDecoding o) (IsTidy β) (srl_sra_divu_list a access)
unfolding srl_sra_divu_list instr_srl instr_sra instr_divu
srl_sra_divu_list-IsComplete a {β = β} access o =
    also (ends no_preparation (λ h. record { registers = inr (_, refl); same_instruction = refl }))
      (also
        (ends no_preparation (λ h. record { registers = inr (_, refl); same_instruction = refl }))
        (also
          (ends no_preparation (λ h. record { registers = inr (_, refl); same_instruction = refl }))
          (nothing)))

pub or_rem_list-IsComplete :
    (a : Arch) {β : Type 0} (access : Access (Option (Machine β))) (o : Core)
    → IsComplete (IsDecoding o) (IsTidy β) (or_rem_list a access)
unfolding or_rem_list instr_or instr_rem
or_rem_list-IsComplete a {β = β} access o =
    also (ends no_preparation (λ h. record { registers = inr (_, refl); same_instruction = refl }))
      (also
        (ends no_preparation (λ h. record { registers = inr (_, refl); same_instruction = refl }))
        (nothing))

pub and_remu_list-IsComplete :
    (a : Arch) {β : Type 0} (access : Access (Option (Machine β))) (o : Core)
    → IsComplete (IsDecoding o) (IsTidy β) (and_remu_list a access)
unfolding and_remu_list instr_and instr_remu
and_remu_list-IsComplete a {β = β} access o =
    also (ends no_preparation (λ h. record { registers = inr (_, refl); same_instruction = refl }))
      (also
        (ends no_preparation (λ h. record { registers = inr (_, refl); same_instruction = refl }))
        (nothing))

pub register_list-IsComplete :
    (a : Arch) {β : Type 0} (access : Access (Option (Machine β))) (o : Core)
    → IsComplete (IsDecoding o) (IsTidy β) (register_list a access)
unfolding register_list
register_list-IsComplete a {β = β} access o =
    also (leads (preparation_func7-IsDecoding o) (add_sub_mul_list-IsComplete a access o)) (
      also (leads (preparation_func7-IsDecoding o) (sll_mulh_list-IsComplete a access o)) (
        also (leads (preparation_func7-IsDecoding o) (slt_mulhsu_list-IsComplete a access o)) (
          also (leads (preparation_func7-IsDecoding o) (sltu_mulhu_list-IsComplete a access o)) (
            also (leads (preparation_func7-IsDecoding o) (xor_div_list-IsComplete a access o)) (
              also
                (leads (preparation_func7-IsDecoding o) (srl_sra_divu_list-IsComplete a access o))
                (also (leads (preparation_func7-IsDecoding o) (or_rem_list-IsComplete a access o)) (
                  also
                    (leads (preparation_func7-IsDecoding o) (and_remu_list-IsComplete a access o))
                    (nothing))))))))

pub srliw_sraiw_list-IsComplete :
    (a : Arch) {β : Type 0} (access : Access (Option (Machine β))) (o : Core)
    → IsComplete (IsDecoding o) (IsTidy β) (srliw_sraiw_list a access)
unfolding srliw_sraiw_list instr_srliw instr_sraiw
srliw_sraiw_list-IsComplete a {β = β} access o =
    also (ends no_preparation (λ h. record { registers = inr (_, refl); same_instruction = refl }))
      (also
        (ends no_preparation (λ h. record { registers = inr (_, refl); same_instruction = refl }))
        (nothing))

pub immediate_w_list-IsComplete :
    (a : Arch) {β : Type 0} (access : Access (Option (Machine β))) (o : Core)
    → IsComplete (IsDecoding o) (IsTidy β) (immediate_w_list a access)
unfolding immediate_w_list instr_slliw instr_addiw
immediate_w_list-IsComplete a {β = β} access o =
    also (ends no_preparation (λ h. record { registers = inr (_, refl); same_instruction = refl }))
      (also (leads (preparation_func7-IsDecoding o) (srliw_sraiw_list-IsComplete a access o)) (
        also
          (ends no_preparation (λ h. record { registers = inr (_, refl); same_instruction = refl }))
          (nothing)))

pub srlw_sraw_divuw_list-IsComplete :
    (a : Arch) {β : Type 0} (access : Access (Option (Machine β))) (o : Core)
    → IsComplete (IsDecoding o) (IsTidy β) (srlw_sraw_divuw_list a access)
unfolding srlw_sraw_divuw_list instr_srlw instr_sraw instr_divuw
srlw_sraw_divuw_list-IsComplete a {β = β} access o =
    also (ends no_preparation (λ h. record { registers = inr (_, refl); same_instruction = refl }))
      (also
        (ends no_preparation (λ h. record { registers = inr (_, refl); same_instruction = refl }))
        (also
          (ends no_preparation (λ h. record { registers = inr (_, refl); same_instruction = refl }))
          (nothing)))

pub addw_subw_mulw_list-IsComplete :
    (a : Arch) {β : Type 0} (access : Access (Option (Machine β))) (o : Core)
    → IsComplete (IsDecoding o) (IsTidy β) (addw_subw_mulw_list a access)
unfolding addw_subw_mulw_list instr_addw instr_subw instr_mulw
addw_subw_mulw_list-IsComplete a {β = β} access o =
    also (ends no_preparation (λ h. record { registers = inr (_, refl); same_instruction = refl }))
      (also
        (ends no_preparation (λ h. record { registers = inr (_, refl); same_instruction = refl }))
        (also
          (ends no_preparation (λ h. record { registers = inr (_, refl); same_instruction = refl }))
          (nothing)))

pub register_w_list-IsComplete :
    (a : Arch) {β : Type 0} (access : Access (Option (Machine β))) (o : Core)
    → IsComplete (IsDecoding o) (IsTidy β) (register_w_list a access)
unfolding register_w_list instr_sllw instr_divw instr_remw instr_remuw
register_w_list-IsComplete a {β = β} access o =
    also (leads (preparation_func7-IsDecoding o) (addw_subw_mulw_list-IsComplete a access o)) (
      also
        (ends no_preparation (λ h. record { registers = inr (_, refl); same_instruction = refl }))
        (also (leads (preparation_func7-IsDecoding o) (srlw_sraw_divuw_list-IsComplete a access o))
          (also
            (ends no_preparation
              (λ h. record { registers = inr (_, refl); same_instruction = refl }))
            (also
              (ends no_preparation
                (λ h. record { registers = inr (_, refl); same_instruction = refl }))
              (also
                (ends no_preparation
                  (λ h. record { registers = inr (_, refl); same_instruction = refl }))
                (nothing))))))
