-- ===== src/Pmp/Csr.antt =====
-- The registers of physical memory protection and their CSR callbacks (src/core/pmp/pmp.h and
-- pmp.c). Both builds have 16 configuration bytes, four or eight to a register, and 16 address
-- registers. The configuration is kept as the bytes that the code reaches by a cast; hosts are
-- little-endian.
use riscv_em.Base.{
  ℕ, zero, suc, ◌+◌, ◌*◌, ◌/◌, ◌%◌, ◌-◌, Bool, true, false, ◌&&◌, ltb, ◌==◌, if◌then◌else◌, List,
  get_or, set, take, drop, byte_of, of_bytes,
}
use riscv_em.Types.{Arch, xlen_bytes, RvRet, rv_ok, rv_err, PrivilegeLevel, machine_mode}
use riscv_em.Helper.{check_bit, extract}

-- `pmp_td`
pub record Pmp : Type 0 where
  pub cfg : List ℕ
  pub addr : List ℕ

-- `PMP_NR_ADDR_REGS`
abbrev pub nr_addr_regs : ℕ
nr_addr_regs = 16

-- `PMP_CFG_L_BIT` and `PMP_CFG_A_BIT_OFFS`
abbrev pub l_bit : ℕ
l_bit = 7

abbrev pub a_bit_offs : ℕ
a_bit_offs = 3

-- `pmp_addr_matching`, as the two bits that hold it
abbrev pub a_off : ℕ
a_off = 0

abbrev pub a_tor : ℕ
a_tor = 1

abbrev pub a_na4 : ℕ
a_na4 = 2

abbrev pub a_napot : ℕ
a_napot = 3

abbrev pub is_machine : PrivilegeLevel → Bool
is_machine machine_mode = true
is_machine _ = false

-- Byte `k` of the structure: behind the configuration bytes stand those of the addresses.
abbrev pub struct_byte : Arch → Pmp → ℕ → ℕ
struct_byte a pmp k =
    if ltb k 16
    then get_or pmp.cfg k 0
    else byte_of (get_or pmp.addr ((k - 16) / xlen_bytes a) 0) ((k - 16) % xlen_bytes a)

-- The loop of `pmp_write_csr_cfg` at byte `i` of the register, with `n` bytes to go.
unfoldable pub cfg_loop : ℕ → ℕ → ℕ → ℕ → List ℕ → List ℕ
cfg_loop base csr_val zero i cfg = cfg
cfg_loop base csr_val (suc n) i cfg = cfg_loop base csr_val n (i + 1) (
    if check_bit (get_or cfg (base + i) 0) l_bit
    then cfg
    else set cfg (base + i) (byte_of csr_val i))

module _ (a : Arch) where
  unfoldable pub pmp_write_csr_cfg : Pmp → PrivilegeLevel → ℕ → ℕ → RvRet × Pmp
  pmp_write_csr_cfg pmp curr_priv reg_index csr_val =
      if is_machine curr_priv
      then (
        rv_ok,
        record pmp { cfg = cfg_loop (reg_index * xlen_bytes a) csr_val (xlen_bytes a) 0 pmp.cfg },
      )
      else (rv_err, pmp)

  unfoldable pub pmp_read_csr_cfg : Pmp → ℕ → RvRet × ℕ
  pmp_read_csr_cfg pmp reg_index =
      (rv_ok, of_bytes (take (xlen_bytes a) (drop (reg_index * xlen_bytes a) pmp.cfg)))

  -- The entry after the one written, where it is looked at, is locked and in TOR mode.
  abbrev pub next_is_locked_tor : Pmp → ℕ → ℕ → Bool
  next_is_locked_tor pmp base cfg_idx =
      ltb cfg_idx (nr_addr_regs - 1)
      && extract 8 (struct_byte a pmp (base + cfg_idx + 1)) a_bit_offs 2 == a_tor
      && check_bit (struct_byte a pmp (base + cfg_idx + 1)) l_bit

  unfoldable pub pmp_write_csr_addr : Pmp → PrivilegeLevel → ℕ → ℕ → RvRet × Pmp
  pmp_write_csr_addr pmp curr_priv reg_index csr_val =
      let cfg_reg_idx = reg_index / xlen_bytes a in
      let cfg_idx = reg_index % xlen_bytes a in
      let base = cfg_reg_idx * xlen_bytes a in
      if is_machine curr_priv
      then if next_is_locked_tor pmp base cfg_idx
        then (rv_ok, pmp)
        else if check_bit (struct_byte a pmp (base + cfg_idx)) l_bit
        then (rv_ok, pmp)
        else (rv_ok, record pmp { addr = set pmp.addr reg_index csr_val })
      else (rv_err, pmp)

unfoldable pub pmp_read_csr_addr : Pmp → ℕ → RvRet × ℕ
pmp_read_csr_addr pmp reg_index = (rv_ok, get_or pmp.addr reg_index 0)
