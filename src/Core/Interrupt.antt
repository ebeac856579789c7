-- ===== src/Core/Interrupt.antt =====
-- src/core/core.c: `rv_core_process_interrupts` and what it calls. `none` is a null pointer.
pub mod Priority
use riscv_em.Base.{ℕ, zero, suc, Bool, true, false, if◌then◌else◌, Option, none, some}
use riscv_em.Types.{Arch, PrivilegeLevel}
use riscv_em.Trap.Irq.{
  TrapRet, trap_ret_none, trap_ret_irq_pending, trap_set_pending_bits, trap_check_interrupt_pending,
  trap_check_exception_delegation, trap_serve_interrupt,
}
use riscv_em.Core.State.{Core}
use riscv_em.Core.Machine.{Machine}

module _ (a : Arch) {β : Type 0} where
  unfoldable pub rv_core_update_interrupts : Machine β → ℕ → ℕ → ℕ → Machine β
  rv_core_update_interrupts s mei mti msi =
      let f = s.csr in
      record s { csr = record f { trap = trap_set_pending_bits a f.trap mei mti msi } }

  -- `trap_serve_interrupt` with the assignments to `pc` and to the privilege level
  unfoldable pub serve :
      Core → Machine β → PrivilegeLevel → (is_interrupt cause : ℕ) → Option (Core × Machine β)
  serve c s serving is_interrupt cause =
      let f = s.csr in
      elim (trap_serve_interrupt a f.trap serving s.curr_priv_mode is_interrupt cause c.pc
        s.sync_trap_tval) [
          | none ↦ none
          | some (trap, pc) ↦ some (
            record c { pc = pc },
            record s { curr_priv_mode = serving; csr = record f { trap = trap } },
          )
        ]

  abbrev pub returned : Option (Core × Machine β) → Option (ℕ × Core × Machine β)
  returned none = none
  returned (some (c, s)) = some (1, c, s)

  -- The loop over the interrupts, from `n - 1` down to 0. The number returned is 1 if one is served.
  unfoldable pub interrupt_loop : ℕ → Core → Machine β → Option (ℕ × Core × Machine β)
  interrupt_loop zero c s = some (0, c, s)
  interrupt_loop (suc n) c s =
      let rest = interrupt_loop n c s in
      elim (trap_check_interrupt_pending s.csr.trap s.curr_priv_mode n) [
        | none ↦ none
        | some (trap_ret_none, serving) ↦ rest
        | some (trap_ret_irq_pending, serving) ↦ returned (serve c s serving 1 n)
      ]

  abbrev pub trap_done : Option (Core × Machine β) → Option (ℕ × Core × Machine β)
  trap_done none = none
  trap_done (some (c, s)) =
      some (1, c, record s { sync_trap_pending = false; sync_trap_cause = 0; sync_trap_tval = 0 })

  unfoldable pub rv_core_prepare_interrupts : Core → Machine β → Option (ℕ × Core × Machine β)
  rv_core_prepare_interrupts c s =
      if s.sync_trap_pending
      then (let serving =
            trap_check_exception_delegation s.csr.trap s.curr_priv_mode s.sync_trap_cause in
          trap_done (serve c s serving 0 s.sync_trap_cause))
      else interrupt_loop 12 c s

  unfoldable pub rv_core_process_interrupts :
      Core → Machine β → ℕ → ℕ → ℕ → Option (ℕ × Core × Machine β)
  rv_core_process_interrupts c s mei mti msi =
      rv_core_prepare_interrupts c (rv_core_update_interrupts s mei mti msi)
