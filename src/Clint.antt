-- ===== src/Clint.antt =====
-- src/peripherals/clint/clint.h and clint.c: the core-local interruptor. Its three 64-bit registers
-- are kept as the 24 bytes that the bus copies from and to; hosts are little-endian. `none` is a
-- copy beyond them.
pub mod Laws
use riscv_em.Base.{
  ℕ, ◌+◌, ◌*◌, ◌%◌, ◌^◌, Bool, true, false, ltb, leb, ◌==◌, if◌then◌else◌, Option, none, some, List,
  length, take, drop, to_bytes, of_bytes, bit_and,
}
use riscv_em.Base.Words.{bit_of, wrap}
use riscv_em.Base.Memory.{splice, write_bytes, read_bytes}
use riscv_em.Types.{
  Arch, xlen, RvRet, rv_ok, BusAccessType, bus_read_access, bus_write_access, bus_instr_access,
}
use riscv_em.Helper.{addr_within}

-- `clint_td`
pub record Clint : Type 0 where
  pub regs : List ℕ

-- `CLINT_MTIMECMP_OFFS`, `CLINT_MTIME_OFFS` and `CLINT_REG_SIZE_BYTES`; the offset of MSIP is 0
abbrev pub mtimecmp_offs : ℕ
mtimecmp_offs = 0x4000

abbrev pub mtime_offs : ℕ
mtime_offs = 0xBFF8

abbrev pub reg_size_bytes : ℕ
reg_size_bytes = 8

-- `clint_regs`
abbrev pub clint_msip : ℕ
clint_msip = 0

abbrev pub clint_mtimecmp : ℕ
clint_mtimecmp = 1

abbrev pub clint_mtime : ℕ
clint_mtime = 2

-- `clint->regs[r]`
abbrev pub reg : Clint → ℕ → ℕ
reg c r = of_bytes (take 8 (drop (r * 8) c.regs))

-- `none` is -1.
unfoldable pub get_u8_arr_index_offs : Arch → ℕ → Option ℕ
get_u8_arr_index_offs a address =
    if ltb address reg_size_bytes
    then some 0
    else if addr_within (xlen a) address mtimecmp_offs reg_size_bytes
    then some 8
    else if addr_within (xlen a) address mtime_offs reg_size_bytes
    then some 16
    else none

-- The buffer `value` is a list of bytes, of which the access uses the first `len`. The result has
-- the device and the buffer afterwards.
unfoldable pub clint_bus_access :
    Arch → Clint → BusAccessType → ℕ → List ℕ → ℕ → Option (RvRet × Clint × List ℕ)
clint_bus_access a clint access_type address value len = elim (get_u8_arr_index_offs a address) [
  | none ↦ some (rv_ok, clint, value)
  | some offs ↦
      let tmp_addr = address % 8 + offs in
      elim access_type [
        | bus_write_access ↦ elim (write_bytes clint.regs tmp_addr (take len value)) [
          | none ↦ none
          | some regs ↦ some (rv_ok, record { regs = regs }, value)
        ]
        | _ ↦ elim (read_bytes clint.regs tmp_addr len) [
          | none ↦ none
          | some bytes ↦ some (rv_ok, clint, splice value 0 bytes)
        ]
      ]
]

-- The results are the new device, `*msi` and `*mti`.
unfoldable pub clint_update : Clint → Clint × ℕ × ℕ
clint_update clint =
    let clint' =
      let bumped = to_bytes 8 (wrap 64 (reg clint clint_mtime + 1)) in
      let new : Clint = record { regs = splice clint.regs 16 bumped } in new in
    (
      clint',
      bit_and (reg clint' clint_msip) 0x1,
      bit_of (leb (reg clint' clint_mtimecmp) (reg clint' clint_mtime)),
    )
