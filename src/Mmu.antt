-- ===== src/Mmu.antt =====
-- src/core/mmu/mmu.h and mmu.c: the memory management unit. `mmu_virt_to_phys` is the version that
-- the build uses; the one under `#if 0` is not modelled. `xlen a` is the width of `rv_uint_xlen`.
pub mod Table
pub mod Leaf
pub mod Walk
pub mod Translate
pub mod Invariant
use riscv_em.Base.{
  ℕ, zero, suc, ◌+◌, ◌*◌, ◌/◌, ◌%◌, ◌^◌, Bool, true, false, not, ◌&&◌, ◌||◌, ltb, ◌==◌,
  if◌then◌else◌, Option, none, some, bit_and, bit_or,
}
use riscv_em.Base.Words.{wrap}
use riscv_em.Types.{
  Arch, rv32, rv64, xlen, xlen_bytes, RvRet, rv_ok, PrivilegeLevel, user_mode, supervisor_mode,
  machine_mode, BusAccessType, access_number, bus_read_access, bus_write_access, bus_instr_access,
}
use riscv_em.Helper.{extract}

-- The page flags of mmu.h
abbrev pub page_valid : ℕ
page_valid = 1

abbrev pub page_read : ℕ
page_read = 2

abbrev pub page_write : ℕ
page_write = 4

abbrev pub page_user : ℕ
page_user = 16

abbrev pub page_accessed : ℕ
page_accessed = 64

abbrev pub page_dirty : ℕ
page_dirty = 128

-- `SV32_LEVELS`, `SV32_PAGE_SIZE`, `SV32_PTESIZE` and `SV32_PTESHIFT`
abbrev pub sv32_levels : ℕ
sv32_levels = 2

abbrev pub sv32_page_size : ℕ
sv32_page_size = 4096

abbrev pub sv32_ptesize : ℕ
sv32_ptesize = 4

-- `MMU_SATP_MODE_BIT` and `MMU_SATP_MODE_NR_BITS`
abbrev pub satp_mode_bit : Arch → ℕ
satp_mode_bit rv32 = 31
satp_mode_bit rv64 = 60

abbrev pub satp_mode_nr_bits : Arch → ℕ
satp_mode_nr_bits rv32 = 1
satp_mode_nr_bits rv64 = 4

pub data MmuRet : Type 0 where
  mmu_ok mmu_page_fault : MmuRet

-- `mmu_td`, less the bus callback, which is an argument below
pub record Mmu : Type 0 where
  pub satp_reg : ℕ
  pub last_virt_pc : ℕ
  pub last_phys_pc : ℕ

pub mmu_init : Mmu
mmu_init = record { satp_reg = 0; last_virt_pc = 0; last_phys_pc = 0 }

unfoldable pub mmu_read_csr : Mmu → RvRet × ℕ
mmu_read_csr mmu = (rv_ok, mmu.satp_reg)

unfoldable pub mmu_write_csr : Mmu → ℕ → RvRet × Mmu
mmu_write_csr mmu csr_val = (rv_ok, record mmu { satp_reg = csr_val })

-- `bus_access`: the level, the kind, the address, the buffer as a number, and the length.
abbrev pub BusAccess : Type 0 → Type 0
BusAccess σ = PrivilegeLevel → BusAccessType → ℕ → ℕ → ℕ → σ → RvRet × ℕ × σ

-- `flags & mask` as a condition
abbrev pub has : ℕ → ℕ → Bool
has flags mask = not (bit_and flags mask == 0)

-- `ACCESS_TYPE_TO_MMU`
abbrev pub access_type_to_mmu : BusAccessType → ℕ
access_type_to_mmu bus_read_access = 2
access_type_to_mmu bus_write_access = 4
access_type_to_mmu bus_instr_access = 8

abbrev pub is_user : PrivilegeLevel → Bool
is_user user_mode = true
is_user _ = false

abbrev pub is_supervisor : PrivilegeLevel → Bool
is_supervisor supervisor_mode = true
is_supervisor _ = false

abbrev pub is_mmu_machine : PrivilegeLevel → Bool
is_mmu_machine machine_mode = true
is_mmu_machine _ = false

abbrev pub is_read : BusAccessType → Bool
is_read bus_read_access = true
is_read _ = false

abbrev pub is_write : BusAccessType → Bool
is_write bus_write_access = true
is_write _ = false

abbrev pub is_instr : BusAccessType → Bool
is_instr bus_instr_access = true
is_instr _ = false

-- The flags after the check of MXR
abbrev pub mxr_flags : BusAccessType → Bool → ℕ → ℕ
mxr_flags access_type mxr flags =
    if is_read access_type && has flags (access_type_to_mmu bus_instr_access) && mxr
    then bit_or flags page_read
    else flags

-- Where the loop over the levels ends: at a page fault, or at a leaf, with its level, its entry and
-- the flags.
pub data Walked (σ : Type 0) : Type 0 where
  walk_fault : σ → Walked σ
  found : (i pte pte_flags : ℕ) → σ → Walked σ

-- The entries `vpn[0]` and `vpn[1]` of the array
abbrev pub vpn : ℕ → ℕ → ℕ
vpn virt_addr zero = bit_and (virt_addr / 2 ^ 12) 0x3ff
vpn virt_addr (suc i) = bit_and (virt_addr / 2 ^ 22) 0x3ff

-- Step 3: not valid, or writable and not readable.
unfoldable pub is_bad_entry : ℕ → Bool
is_bad_entry flags = not (has flags page_valid) || not (has flags page_read) && has flags page_write

module _ (a : Arch) where
  abbrev pub ppn : ℕ → ℕ → ℕ
  ppn pte zero = bit_and (wrap (xlen a) (pte * 4) / 2 ^ 12) 0x3ff
  ppn pte (suc i) = bit_and (wrap (xlen a) (pte * 4) / 2 ^ 22) 0xfff

  unfoldable pub phys_addr_translation : ℕ → ℕ → ℕ → ℕ
  phys_addr_translation pte virt_addr zero =
      bit_or (bit_or (wrap (xlen a) (ppn pte 1 * 2 ^ 22)) (ppn pte 0 * 2 ^ 12))
        (bit_and virt_addr 0xfff)
  phys_addr_translation pte virt_addr (suc i) =
      bit_or (wrap (xlen a) (ppn pte 1 * 2 ^ 22)) (bit_and virt_addr 0x3fffff)

  module _ (curr_priv : PrivilegeLevel) (access_type : BusAccessType) (mxr sum : Bool) where
    -- Steps 5 to 8 for a leaf of level `i`: the address, or `none` for a page fault.
    unfoldable pub check_leaf : ℕ → ℕ → ℕ → ℕ → Option ℕ
    check_leaf virt_addr i pte flags =
        let user_page = has flags page_user in
        if is_user curr_priv && not user_page
        then none
        else if is_supervisor curr_priv && user_page && not sum
        then none
        else (let pte_flags = mxr_flags access_type mxr flags in
            if not (has pte_flags (access_type_to_mmu access_type))
            then none
            else if ltb 0 i && not (ppn pte 0 == 0)
            then none
            else if not (has pte_flags page_accessed)
                || is_write access_type && not (has pte_flags page_dirty)
            then none
            else some (phys_addr_translation pte virt_addr i))

    module _ {σ : Type 0} (bus_access : BusAccess σ) (virt_addr : ℕ) where
      -- The loop, with `n` levels to go: the level is `n - 1`. `pte` keeps its value between two
      -- reads, whose results are not looked at.
      unfoldable pub walk : ℕ → ℕ → ℕ → σ → Walked σ
      walk zero base pte m = walk_fault m
      walk (suc i) base pte m =
          let pte_addr = wrap (xlen a) (base + vpn virt_addr i * sv32_ptesize) in
          let reply = bus_access curr_priv bus_read_access pte_addr pte (xlen_bytes a) m in
          let pte_read : ℕ = reply.1 in
          let flags : ℕ = pte_read % 256 in
          let rest = walk i (wrap (xlen a) (pte_read / 2 ^ 10 * sv32_page_size)) pte_read reply.2 in
          if is_bad_entry flags
          then walk_fault reply.2
          else if has flags 0xA
          then found i pte_read flags reply.2
          else rest

      -- The pair of addresses that an instruction fetch leaves
      abbrev pub remember_pc : Mmu → ℕ → Mmu
      remember_pc mmu phys =
          if is_instr access_type
          then record mmu { last_phys_pc = wrap (xlen a) phys; last_virt_pc = virt_addr }
          else mmu

      abbrev pub finish : Mmu → σ → Option ℕ → MmuRet × ℕ × Mmu × σ
      finish mmu m none = (mmu_page_fault, 0, mmu, m)
      finish mmu m (some phys) = (mmu_ok, phys, remember_pc mmu phys, m)

      -- The result has `*ret_val` first.
      unfoldable pub mmu_virt_to_phys : Mmu → σ → MmuRet × ℕ × Mmu × σ
      mmu_virt_to_phys mmu m =
          let mode = extract (xlen a) mmu.satp_reg (satp_mode_bit a) (satp_mode_nr_bits a) in
          let base = wrap (xlen a) (bit_and mmu.satp_reg 0x3FFFFF * sv32_page_size) in
          if is_mmu_machine curr_priv || mode == 0
          then (mmu_ok, virt_addr, mmu, m)
          else elim (walk sv32_levels base 0 m) [
            | walk_fault m ↦ (mmu_page_fault, 0, mmu, m)
            | found i pte flags m ↦ finish mmu m (check_leaf virt_addr i pte flags)
          ]
