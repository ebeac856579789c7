-- ===== src/Core/Hart.antt =====
-- src/core/core.h: the hart with the reservation of LR and SC and what lies behind
-- `mmu_checked_bus_access` of src/core/core.c. That function and the state it reads and writes
-- (translation, protection, pending trap, bus and devices) are arguments here.
use riscv_em.Base.{ℕ, Bool, ◌*◌, ◌^◌, ◌<◌, ◌≡◌}
use riscv_em.Types.{RvRet, rv_ok, BusAccessType, bus_read_access, bus_write_access}
use riscv_em.Core.State.{Core}

-- `rv_core_td`; `rest` is the state behind an access.
pub record Hart (σ : Type 0) : Type 0 where
  pub core : Core
  pub lr_valid : Bool
  pub lr_address : ℕ
  pub rest : σ

-- `mmu_checked_bus_access` at the current privilege level: the kind of access, the address, the
-- first `len` bytes of the buffer as a number, and `len`. The result has the buffer afterwards.
abbrev pub Access : Type 0 → Type 0
Access σ = BusAccessType → ℕ → ℕ → ℕ → σ → RvRet × ℕ × σ

-- In the states of `IsReady`, the `len` bytes at `address` are memory: a read succeeds, gives them as
-- a number and changes nothing; a write replaces them and leads to a state of `IsReady` again.
pub record IsMemory {σ : Type 0} (access : Access σ) (IsReady : σ → Type 0) (get : σ → ℕ)
    (address len : ℕ) : Type 0 where
  pub fits : (m : σ) → IsReady m → get m < 2 ^ (8 * len)
  pub read : (m : σ) → IsReady m → access bus_read_access address 0 len m ≡ (rv_ok, get m, m)
  pub write :
      (m : σ) (v : ℕ)
      → IsReady m
      → v < 2 ^ (8 * len)
      → let (ret, out, m') = access bus_write_access address v len m in IsReady m' × (get m' ≡ v)
