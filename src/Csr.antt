-- ===== src/Csr.antt =====
-- src/core/csr/csr.h and csr.c: the file of control and status registers, with what stands behind
-- the callbacks that `rv_core_init_csr_regs` of src/core/core.c stores.
pub mod Laws
use riscv_em.Base.{
  ℕ, ◌*◌, ◌^◌, Bool, not, ltb, ◌==◌, if◌then◌else◌, Option, none, some, bit_and, bit_or,
}
use riscv_em.Types.{Arch, RvRet, rv_ok, rv_err, PrivilegeLevel, level_number}
use riscv_em.Trap.Regs.{TrapReg, TrapRegs, trap_m_read, trap_m_write, trap_s_read, trap_s_write}
use riscv_em.Pmp.Csr.{
  Pmp, pmp_read_csr_cfg, pmp_write_csr_cfg, pmp_read_csr_addr, pmp_write_csr_addr,
}
use riscv_em.Mmu.{Mmu, mmu_read_csr, mmu_write_csr}

-- `priv`, `read_cb`, `write_cb` and `internal_reg`, in the combinations that the core stores. They
-- are all null in `by_value`.
pub data Callbacks : Type 0 where
  by_value by_mmu : Callbacks
  by_trap_m by_trap_s : TrapReg → Callbacks
  by_pmp_cfg by_pmp_addr : ℕ → Callbacks

-- `csr_reg_td`
pub record CsrReg : Type 0 where
  pub access_flags : ℕ
  pub value : ℕ
  pub mask : ℕ
  pub warl_always_enabled : ℕ
  pub callbacks : Callbacks

-- `csr_regs` of `rv_core_td`, and the units behind the callbacks. The array has `addr_max` entries.
pub record CsrFile : Type 0 where
  pub csr_regs : ℕ → CsrReg
  pub trap : TrapRegs
  pub pmp : Pmp
  pub mmu : Mmu

-- `CSR_ADDR_MAX`
abbrev pub addr_max : ℕ
addr_max = 0xFFF

-- `CSR_ACCESS_READ`, `CSR_ACCESS_WRITE`, `CSR_ACCESS_RO` and `CSR_ACCESS_RW`
abbrev pub access_read : ℕ
access_read = 1

abbrev pub access_write : ℕ
access_write = 2

abbrev pub access_ro : PrivilegeLevel → ℕ
access_ro level = access_read * 2 ^ (level_number level * 2)

abbrev pub access_wo : PrivilegeLevel → ℕ
access_wo level = access_write * 2 ^ (level_number level * 2)

abbrev pub access_rw : PrivilegeLevel → ℕ
access_rw level = 3 * 2 ^ (level_number level * 2)

-- `CSR_ACCESS_READ_GRANTED` and `CSR_ACCESS_WRITE_GRANTED`
unfoldable pub read_granted : PrivilegeLevel → ℕ → Bool
read_granted level flags = not (bit_and (access_ro level) flags == 0)

unfoldable pub write_granted : PrivilegeLevel → ℕ → Bool
write_granted level flags = not (bit_and (access_wo level) flags == 0)

-- An assignment to one entry of the array
abbrev pub put_reg : (ℕ → CsrReg) → ℕ → CsrReg → ℕ → CsrReg
put_reg regs address reg k = if k == address then reg else regs k

abbrev pub csr_get_mask : CsrFile → ℕ → ℕ
csr_get_mask f address = (f.csr_regs address).mask

module _ (a : Arch) where
  -- A call of `read_cb`, or the value where there is none
  abbrev pub read_value : CsrFile → CsrReg → Callbacks → RvRet × ℕ
  read_value f reg by_value = (rv_ok, reg.value)
  read_value f reg by_mmu = mmu_read_csr f.mmu
  read_value f reg (by_trap_m r) = trap_m_read f.trap r
  read_value f reg (by_trap_s r) = trap_s_read f.trap r
  read_value f reg (by_pmp_cfg i) = pmp_read_csr_cfg a f.pmp i
  read_value f reg (by_pmp_addr i) = pmp_read_csr_addr f.pmp i

  -- A call of `write_cb`, or the assignment of the masked value where there is none
  abbrev pub write_value : CsrFile → PrivilegeLevel → ℕ → ℕ → Callbacks → RvRet × CsrFile
  write_value f level address val by_value =
      let reg = f.csr_regs address in
      let changed = record reg { value = bit_and val reg.mask } in
      (rv_ok, record f { csr_regs = put_reg f.csr_regs address changed })
  write_value f level address val by_mmu =
      let (ret, mmu) = mmu_write_csr f.mmu val in (ret, record f { mmu = mmu })
  write_value f level address val (by_trap_m r) =
      let (ret, trap) = trap_m_write f.trap r val in (ret, record f { trap = trap })
  write_value f level address val (by_trap_s r) =
      let (ret, trap) = trap_s_write f.trap r val in (ret, record f { trap = trap })
  write_value f level address val (by_pmp_cfg i) =
      let (ret, pmp) = pmp_write_csr_cfg a f.pmp level i val in (ret, record f { pmp = pmp })
  write_value f level address val (by_pmp_addr i) =
      let (ret, pmp) = pmp_write_csr_addr a f.pmp level i val in (ret, record f { pmp = pmp })

  -- `out_val` is the value before the call. `none` is an access beyond the array, which the check
  -- of the address lets through at `addr_max`.
  unfoldable pub csr_read_reg : CsrFile → PrivilegeLevel → ℕ → ℕ → Option (RvRet × ℕ)
  csr_read_reg f level address out_val =
      if ltb addr_max address
      then some (rv_err, out_val)
      else if address == addr_max
      then none
      else (let reg = f.csr_regs address in
          if read_granted level reg.access_flags
          then (let (ret, tmp_out_val) = read_value f reg reg.callbacks in
              some (ret, bit_or tmp_out_val reg.warl_always_enabled))
          else some (rv_err, out_val))

  unfoldable pub csr_write_reg : CsrFile → PrivilegeLevel → ℕ → ℕ → Option (RvRet × CsrFile)
  csr_write_reg f level address val =
      if ltb addr_max address
      then some (rv_err, f)
      else if address == addr_max
      then none
      else if write_granted level (f.csr_regs address).access_flags
      then some (write_value f level address val (f.csr_regs address).callbacks)
      else some (rv_err, f)
