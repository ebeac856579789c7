-- ===== src/Core/Load.antt =====
-- src/core/core.c: the loads and the stores.
pub mod RoundTrip
use riscv_em.Base.{ℕ, ◌+◌, ◌*◌}
use riscv_em.Base.Words.{wrap}
use riscv_em.Types.{Arch, xlen, rv_ok, rv_err, bus_read_access, bus_write_access}
use riscv_em.Core.State.{Core, rs1_val, rs2_val, write_rd}
use riscv_em.Core.Words.{signex}
use riscv_em.Core.Hart.{Hart, Access}

module _ (a : Arch) {σ : Type 0} (access : Access σ) where
  -- `x[rs1]` and the sign-extended offset.
  abbrev pub effective_address : Core → ℕ
  effective_address c = wrap (xlen a) (rs1_val c + signex (xlen a) 12 c.immediate)

  -- A load of `len` bytes, of which `extend` makes the register's value.
  unfoldable pub load : ℕ → (ℕ → ℕ) → Hart σ → Hart σ
  load len extend h =
      let (ret, value, rest) = access bus_read_access (effective_address h.core) 0 len h.rest in
      elim ret [
        | rv_ok ↦ record h { core = write_rd h.core (extend value); rest = rest }
        | rv_err ↦ record h { rest = rest }
      ]

  unfoldable pub instr_lb : Hart σ → Hart σ
  instr_lb = load 1 (signex (xlen a) 8)

  unfoldable pub instr_lh : Hart σ → Hart σ
  instr_lh = load 2 (signex (xlen a) 16)

  unfoldable pub instr_lw : Hart σ → Hart σ
  instr_lw = load 4 (signex (xlen a) 32)

  unfoldable pub instr_lbu : Hart σ → Hart σ
  instr_lbu = load 1 (λ v. v)

  unfoldable pub instr_lhu : Hart σ → Hart σ
  instr_lhu = load 2 (λ v. v)

  -- RV64 only.
  unfoldable pub instr_lwu : Hart σ → Hart σ
  instr_lwu = load 4 (λ v. v)

  unfoldable pub instr_ld : Hart σ → Hart σ
  instr_ld = load 8 (λ v. v)

  -- A store of the low `len` bytes of `x[rs2]`; its result is not looked at.
  unfoldable pub store_rs2 : ℕ → Hart σ → Hart σ
  store_rs2 len h =
      let (ret, value, rest) =
        access bus_write_access (effective_address h.core) (wrap (8 * len) (rs2_val h.core)) len
          h.rest in
      record h { rest = rest }

  unfoldable pub instr_sb : Hart σ → Hart σ
  instr_sb = store_rs2 1

  unfoldable pub instr_sh : Hart σ → Hart σ
  instr_sh = store_rs2 2

  unfoldable pub instr_sw : Hart σ → Hart σ
  instr_sw = store_rs2 4

  -- RV64 only.
  unfoldable pub instr_sd : Hart σ → Hart σ
  instr_sd = store_rs2 8
