-- ===== src/Core/Atomic/Reservation.antt =====
-- The reservation of LR and SC in src/core/core.c.
use riscv_em.Base.{ℕ, ◌≡◌, refl, true, false, ◌==◌, if◌then◌else◌, arith}
use riscv_em.Types.{Arch, xlen}
use riscv_em.Core.Words.{signex}
use riscv_em.Core.State.{Core, rs1_val, write_rd}
use riscv_em.Core.Hart.{Hart, Access}
use riscv_em.Core.Load.{load, store_rs2, instr_lw, instr_sw}
use riscv_em.Core.Atomic.{store_conditional, instr_lr_w, instr_sc_w}

module _ (a : Arch) {σ : Type 0} (access : Access σ) (h : Hart σ) where
  -- A second SC finds no reservation: it leaves everything behind the bus as the first one left it,
  -- and writes 1 to its target register.
  instr_sc_w-instr_sc_w :
      let once = instr_sc_w a access h in
      let twice = instr_sc_w a access once in
      (twice.rest ≡ once.rest) × (twice.core ≡ write_rd once.core 1)
  unfolding instr_sc_w store_conditional
  instr_sc_w-instr_sc_w = (refl, refl)

load-keeps :
    (a : Arch) {σ : Type 0} (access : Access σ) (len : ℕ) (extend : ℕ → ℕ) (h : Hart σ)
    → let h' = load a access len extend h in
      (h'.lr_valid ≡ h.lr_valid) × (h'.lr_address ≡ h.lr_address)
unfolding load
load-keeps a access len extend h = (ground arith, ground arith)

-- An SC after an LR, with any instruction `c` decoded after it: if its address is the one that the
-- LR read, it does the store and writes 0 to its target register; else it leaves everything behind
-- the bus as it is and writes 1. The reservation has ended in both cases.
pub instr_sc_w-instr_lr_w :
    (a : Arch) {σ : Type 0} (access : Access σ) (h : Hart σ) (c : Core)
    → let reserved = instr_lr_w a access h in
      let h' : Hart σ = record reserved { core = c } in
      let done = instr_sc_w a access h' in
      (done.rest
        ≡ (if rs1_val c == rs1_val h.core then (instr_sw a access h').rest else reserved.rest))
      × (done.core ≡ (if rs1_val c == rs1_val h.core then write_rd c 0 else write_rd c 1))
      × (done.lr_valid ≡ false)
unfolding instr_sc_w store_conditional instr_lr_w instr_lw load instr_sw store_rs2
instr_sc_w-instr_lr_w a access h c =
    let (valid, address) =
      load-keeps a access 4 (signex (xlen a) 32)
        (record h { lr_address = rs1_val h.core; lr_valid = true }) in
    ground (arith, valid, address)
