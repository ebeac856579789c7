-- ===== src/Core/Machine.antt =====
-- src/core/core.c: `prepare_sync_trap`, and the two functions through which the core reaches the
-- bus, with physical memory protection and with address translation before it.
pub mod Trapping
pub mod Memory
use riscv_em.Base.{ℕ, Bool, true, ◌==◌, not, ◌+◌, if◌then◌else◌, Option, none, some}
use riscv_em.Base.Words.{wrap}
use riscv_em.Types.{
  Arch, xlen, RvRet, rv_ok, rv_err, PrivilegeLevel, BusAccessType, bus_read_access,
  bus_write_access, bus_instr_access,
}
use riscv_em.Helper.{check_bit, extract}
use riscv_em.Trap.Regs.{m_bank, status, reg_get}
use riscv_em.Trap.Irq.{mpp_bit, level_of_rank}
use riscv_em.Pmp.Check.{pmp_mem_check}
use riscv_em.Mmu.{Mmu, BusAccess, is_instr, MmuRet, mmu_ok, mmu_page_fault, mmu_virt_to_phys}
use riscv_em.Csr.{CsrFile}
use riscv_em.Core.Hart.{Access}

-- The rest of `rv_core_td`; `bus` is the state behind `bus_access`.
pub record Machine (β : Type 0) : Type 0 where
  pub curr_priv_mode : PrivilegeLevel
  pub curr_cycle : ℕ
  pub sync_trap_pending : Bool
  pub sync_trap_cause : ℕ
  pub sync_trap_tval : ℕ
  pub csr : CsrFile
  pub bus : β

-- The bits of the status register in trap.h
abbrev pub mprv_bit : ℕ
mprv_bit = 17

abbrev pub sum_bit : ℕ
sum_bit = 18

abbrev pub mxr_bit : ℕ
mxr_bit = 19

-- `trap_cause_exception`, the causes of an access
abbrev pub access_fault : BusAccessType → ℕ
access_fault bus_instr_access = 1
access_fault bus_read_access = 5
access_fault bus_write_access = 7

abbrev pub page_fault : BusAccessType → ℕ
page_fault bus_instr_access = 12
page_fault bus_read_access = 13
page_fault bus_write_access = 15

module _ {β : Type 0} where
  unfoldable pub prepare_sync_trap : Machine β → ℕ → ℕ → Machine β
  prepare_sync_trap s cause tval =
      if not s.sync_trap_pending
      then record s { sync_trap_pending = true; sync_trap_cause = cause; sync_trap_tval = tval }
      else s

  -- `*rv_core->trap.m.regs[trap_reg_status]`
  abbrev pub m_status : Machine β → ℕ
  m_status s = reg_get s.csr.trap m_bank status

  abbrev pub with_mmu : Mmu → Option (Machine β) → Option (Machine β)
  with_mmu mmu none = none
  with_mmu mmu (some s) = let f = s.csr in some (record s { csr = record f { mmu = mmu } })

module _ (a : Arch) {β : Type 0} (bus_access : BusAccess β) where
  unfoldable pub check_mprv_override : Machine β → BusAccessType → PrivilegeLevel
  check_mprv_override s access_type =
      let mprv = extract (xlen a) (m_status s) mprv_bit 1 in
      let ret_val = level_of_rank (extract (xlen a) (m_status s) mpp_bit 2 + 1) in
      if is_instr access_type
      then s.curr_priv_mode
      else if mprv == 0
      then s.curr_priv_mode
      else ret_val

  -- `none` for the machine is an undefined shift in `pmp_mem_check`, and lasts.
  unfoldable pub pmp_checked_bus_access : BusAccess (Option (Machine β))
  pmp_checked_bus_access level access_type addr value len none = (rv_err, value, none)
  pmp_checked_bus_access level access_type addr value len (some s) =
      elim (pmp_mem_check a s.csr.pmp level addr len access_type) [
        | none ↦ (rv_err, value, none)
        | some rv_err ↦ (rv_err, value, some (prepare_sync_trap s (access_fault access_type) addr))
        | some rv_ok ↦
            let (ret, out, bus) = bus_access level access_type addr value len s.bus in
            (ret, out, some (record s { bus = bus }))
      ]

  -- After the translation, with the unit's new state
  unfoldable pub after_translation :
      PrivilegeLevel
      → BusAccessType
      → ℕ
      → ℕ
      → ℕ
      → MmuRet
      → ℕ
      → Option (Machine β)
      → RvRet × ℕ × Option (Machine β)
  after_translation level access_type addr value len mmu_page_fault phys none =
      (rv_err, value, none)
  after_translation level access_type addr value len mmu_page_fault phys (some s) =
      (rv_err, value, some (prepare_sync_trap s (page_fault access_type) addr))
  after_translation level access_type addr value len mmu_ok phys m =
      pmp_checked_bus_access level access_type (wrap (xlen a) phys) value len m

  unfoldable pub mmu_checked_bus_access : Access (Option (Machine β))
  mmu_checked_bus_access access_type addr value len none = (rv_err, value, none)
  mmu_checked_bus_access access_type addr value len (some s) =
      let level = check_mprv_override s access_type in
      let mxr = check_bit (m_status s) mxr_bit in
      let sum = check_bit (m_status s) sum_bit in
      let (ret, phys, mmu, m) =
        mmu_virt_to_phys a level access_type mxr sum pmp_checked_bus_access addr s.csr.mmu
          (some s) in
      after_translation level access_type addr value len ret phys (with_mmu mmu m)
