-- ===== src/Types.antt =====
-- src/core/riscv_types.h: the types that every component shares.
use riscv_em.Base.{ℕ, ◌≤◌, arith}

-- The two builds: with RV64 defined, and without.
pub data Arch : Type 0 where
  rv32 rv64 : Arch

-- `XLEN`, the width of `rv_uint_xlen`.
abbrev pub xlen : Arch → ℕ
xlen rv32 = 32
xlen rv64 = 64

pub xlen_bounds : (a : Arch) → (32 ≤ xlen a) × (xlen a ≤ 64)
xlen_bounds rv32 = omega arith
xlen_bounds rv64 = omega arith

-- `sizeof(rv_uint_xlen)`
abbrev pub xlen_bytes : Arch → ℕ
xlen_bytes rv32 = 4
xlen_bytes rv64 = 8

-- `#ifdef RV64`, with the text for each build
abbrev pub by_arch {ℓ} : {A : Type ℓ} → Arch → A → A → A
by_arch rv32 x y = x
by_arch rv64 x y = y

pub data RvRet : Type 0 where
  rv_ok rv_err : RvRet

pub data PrivilegeLevel : Type 0 where
  priv_level_unknown user_mode supervisor_mode reserved_mode machine_mode : PrivilegeLevel

-- The enumeration's value plus one, since `priv_level_unknown` is -1.
abbrev pub rank : PrivilegeLevel → ℕ
rank priv_level_unknown = 0
rank user_mode = 1
rank supervisor_mode = 2
rank reserved_mode = 3
rank machine_mode = 4

-- The enumeration's value; `priv_level_unknown` never reaches a place that uses it as a number.
abbrev pub level_number : PrivilegeLevel → ℕ
level_number priv_level_unknown = 0
level_number user_mode = 0
level_number supervisor_mode = 1
level_number reserved_mode = 2
level_number machine_mode = 3

-- `priv_level_max`
abbrev pub priv_level_max : ℕ
priv_level_max = 4

pub data BusAccessType : Type 0 where
  bus_read_access bus_write_access bus_instr_access : BusAccessType

-- The enumeration's value, used as a bit position.
abbrev pub access_number : BusAccessType → ℕ
access_number bus_read_access = 0
access_number bus_write_access = 1
access_number bus_instr_access = 2
