-- ===== src/Core/Atomic.antt =====
-- src/core/core.c: the instructions of the A extension.
pub mod Effect
pub mod Reservation
use riscv_em.Base.{
  ℕ, ◌+◌, ◌*◌, get_or, bit_and, bit_or, bit_xor, Bool, true, false, ◌&&◌, ltb, ◌==◌, if◌then◌else◌,
}
use riscv_em.Base.Words.{wrap}
use riscv_em.Types.{Arch, xlen, bus_write_access}
use riscv_em.Core.State.{Core, rs1_val, rs2_val, write_rd}
use riscv_em.Core.Words.{ltb_signed}
use riscv_em.Core.Hart.{Hart, Access}
use riscv_em.Core.Load.{instr_lw, instr_ld, instr_sw, instr_sd}

-- What the operations compute from the old value and `x[rs2]`, on words of `w` bits.
unfoldable pub swap_result : ℕ → ℕ → ℕ → ℕ
swap_result w old v = v

unfoldable pub add_result : ℕ → ℕ → ℕ → ℕ
add_result w old v = wrap w (old + v)

unfoldable pub xor_result : ℕ → ℕ → ℕ → ℕ
xor_result w old v = bit_xor old v

unfoldable pub and_result : ℕ → ℕ → ℕ → ℕ
and_result w old v = bit_and old v

unfoldable pub or_result : ℕ → ℕ → ℕ → ℕ
or_result w old v = bit_or old v

unfoldable pub min_result : ℕ → ℕ → ℕ → ℕ
min_result w old v = if ltb_signed w old v then old else v

unfoldable pub max_result : ℕ → ℕ → ℕ → ℕ
max_result w old v = if ltb_signed w v old then old else v

unfoldable pub minu_result : ℕ → ℕ → ℕ → ℕ
minu_result w old v = if ltb old v then old else v

unfoldable pub maxu_result : ℕ → ℕ → ℕ → ℕ
maxu_result w old v = if ltb v old then old else v

module _ (a : Arch) {σ : Type 0} (access : Access σ) where
  unfoldable pub instr_lr_w : Hart σ → Hart σ
  instr_lr_w h = instr_lw a access (record h { lr_address = rs1_val h.core; lr_valid = true })

  -- The store, or not, and then the end of the reservation.
  unfoldable pub store_conditional : (Hart σ → Hart σ) → Hart σ → Hart σ
  store_conditional store h =
      let stored = store h in
      let done =
        if h.lr_valid && h.lr_address == rs1_val h.core
        then record stored { core = write_rd stored.core 0 }
        else record h { core = write_rd h.core 1 } in
      record done { lr_valid = false; lr_address = 0 }

  unfoldable pub instr_sc_w : Hart σ → Hart σ
  instr_sc_w = store_conditional (instr_sw a access)

  -- The body that the operations share: `load` reads into `x[rd]`, then the result of `len` bytes
  -- is written to the address that `x[rs1]` held before. Neither result of the bus is looked at.
  unfoldable pub amo : ℕ → (Hart σ → Hart σ) → (ℕ → ℕ → ℕ) → Hart σ → Hart σ
  amo len load op h =
      let address = rs1_val h.core in
      let rs2_value = wrap (8 * len) (rs2_val h.core) in
      let loaded = load h in
      let rd_value = wrap (8 * len) (get_or loaded.core.x loaded.core.rd 0) in
      let (ret, value, rest) =
        access bus_write_access address (op rd_value rs2_value) len loaded.rest in
      record loaded { rest = rest }

  unfoldable pub instr_amoswap_w : Hart σ → Hart σ
  instr_amoswap_w = amo 4 (instr_lw a access) (swap_result 32)

  unfoldable pub instr_amoadd_w : Hart σ → Hart σ
  instr_amoadd_w = amo 4 (instr_lw a access) (add_result 32)

  unfoldable pub instr_amoxor_w : Hart σ → Hart σ
  instr_amoxor_w = amo 4 (instr_lw a access) (xor_result 32)

  unfoldable pub instr_amoand_w : Hart σ → Hart σ
  instr_amoand_w = amo 4 (instr_lw a access) (and_result 32)

  unfoldable pub instr_amoor_w : Hart σ → Hart σ
  instr_amoor_w = amo 4 (instr_lw a access) (or_result 32)

  unfoldable pub instr_amomin_w : Hart σ → Hart σ
  instr_amomin_w = amo 4 (instr_lw a access) (min_result 32)

  unfoldable pub instr_amomax_w : Hart σ → Hart σ
  instr_amomax_w = amo 4 (instr_lw a access) (max_result 32)

  unfoldable pub instr_amominu_w : Hart σ → Hart σ
  instr_amominu_w = amo 4 (instr_lw a access) (minu_result 32)

  unfoldable pub instr_amomaxu_w : Hart σ → Hart σ
  instr_amomaxu_w = amo 4 (instr_lw a access) (maxu_result 32)

  -- RV64 only.
  unfoldable pub instr_lr_d : Hart σ → Hart σ
  instr_lr_d h = instr_ld a access (record h { lr_valid = true; lr_address = rs1_val h.core })

  unfoldable pub instr_sc_d : Hart σ → Hart σ
  instr_sc_d = store_conditional (instr_sd a access)

  unfoldable pub instr_amoswap_d : Hart σ → Hart σ
  instr_amoswap_d = amo 8 (instr_ld a access) (swap_result 64)

  unfoldable pub instr_amoadd_d : Hart σ → Hart σ
  instr_amoadd_d = amo 8 (instr_ld a access) (add_result 64)

  unfoldable pub instr_amoxor_d : Hart σ → Hart σ
  instr_amoxor_d = amo 8 (instr_ld a access) (xor_result 64)

  unfoldable pub instr_amoand_d : Hart σ → Hart σ
  instr_amoand_d = amo 8 (instr_ld a access) (and_result 64)

  unfoldable pub instr_amoor_d : Hart σ → Hart σ
  instr_amoor_d = amo 8 (instr_ld a access) (or_result 64)

  unfoldable pub instr_amomin_d : Hart σ → Hart σ
  instr_amomin_d = amo 8 (instr_ld a access) (min_result 64)

  unfoldable pub instr_amomax_d : Hart σ → Hart σ
  instr_amomax_d = amo 8 (instr_ld a access) (max_result 64)

  unfoldable pub instr_amominu_d : Hart σ → Hart σ
  instr_amominu_d = amo 8 (instr_ld a access) (minu_result 64)

  unfoldable pub instr_amomaxu_d : Hart σ → Hart σ
  instr_amomaxu_d = amo 8 (instr_ld a access) (maxu_result 64)
