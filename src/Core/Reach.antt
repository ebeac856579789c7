-- ===== src/Core/Reach.antt =====
-- src/core/core.c: the states that a hart comes to from `rv_core_init`, by calls of `rv_core_run` and of
-- `rv_core_process_interrupts` in any order, as a system makes them.
use riscv_em.Base.{
  ℕ, if◌then◌else◌, zero, suc, ◌≡◌, refl, subst, ap, ◌∙◌, inl, Bool, true, false, Option, none,
  some, List, length, get_or,
}
use riscv_em.Types.{Arch, PrivilegeLevel}
use riscv_em.Trap.Regs.{TrapRegs}
use riscv_em.Trap.Irq.{
  TrapRet, trap_ret_none, trap_ret_irq_pending, trap_check_interrupt_pending, trap_serve_interrupt,
  trap_check_exception_delegation,
}
use riscv_em.Mmu.{BusAccess}
use riscv_em.Core.State.{Core}
use riscv_em.Core.Machine.{Machine}
use riscv_em.Core.Run.{Cpu, rv_core_run}
use riscv_em.Core.Run.Registers.{rv_core_run-registers}
use riscv_em.Core.Interrupt.{
  serve, returned, trap_done, interrupt_loop, rv_core_prepare_interrupts,
  rv_core_process_interrupts, rv_core_update_interrupts,
}
use riscv_em.Core.Init.{rv_core_init}

-- The hart with new registers and a new machine
abbrev pub resumed : {β : Type 0} → Cpu β → Core → Machine β → Cpu β
resumed cpu c s = let h = cpu.hart in record cpu { hart = record h { core = c; rest = some s } }

module _ (a : Arch) {β : Type 0} (bus_access : BusAccess β) where
  -- One call; `mei`, `mti` and `msi` are the lines of the devices.
  pub data Step (cpu : Cpu β) : Cpu β → Type 0 where
    instruction : {next : Cpu β} → rv_core_run a bus_access cpu ≡ some next → Step cpu next
    interrupts :
        {s t : Machine β} {c : Core} {served : ℕ} (mei mti msi : ℕ)
        → cpu.hart.rest ≡ some s
        → rv_core_process_interrupts a cpu.hart.core s mei mti msi ≡ some (served, c, t)
        → Step cpu (resumed cpu c t)

  pub data Reachable : Cpu β → Type 0 where
    reset : (bus : β) → Reachable (rv_core_init a bus)
    then_step : {cpu next : Cpu β} → Reachable cpu → Step cpu next → Reachable next

  -- Interrupts leave the registers alone.
  abbrev SameX : List ℕ → Option (ℕ × Core × Machine β) → Type 0
  SameX xs none = Unit
  SameX xs (some (n, c, t)) = c.x ≡ xs

  abbrev SameRegs : List ℕ → Option (Core × Machine β) → Type 0
  SameRegs xs none = Unit
  SameRegs xs (some (c, t)) = c.x ≡ xs

  serve-SameRegs :
      (c : Core) (s : Machine β) (level : PrivilegeLevel) (is_interrupt cause : ℕ)
      → SameRegs c.x (serve a c s level is_interrupt cause)
  unfolding serve
  serve-SameRegs c s level is_interrupt cause = by_result (
      trap_serve_interrupt a s.csr.trap level s.curr_priv_mode is_interrupt cause c.pc
        s.sync_trap_tval)
    where
      by_result :
          (r : Option (TrapRegs × ℕ))
          → SameRegs c.x (
              let f = s.csr in
              elim r [
                | none ↦ none
                | some (trap, pc) ↦ some (
                  record c { pc = pc },
                  record s { curr_priv_mode = level; csr = record f { trap = trap } },
                )
              ])
      by_result none = tt
      by_result (some (trap, pc)) = refl

  returned-SameX :
      (xs : List ℕ) (r : Option (Core × Machine β)) → SameRegs xs r → SameX xs (returned a r)
  returned-SameX xs none e = tt
  returned-SameX xs (some (c, t)) e = e

  trap_done-SameX :
      (xs : List ℕ) (r : Option (Core × Machine β)) → SameRegs xs r → SameX xs (trap_done a r)
  trap_done-SameX xs none e = tt
  trap_done-SameX xs (some (c, t)) e = e

  loop-SameX : (n : ℕ) (c : Core) (s : Machine β) → SameX c.x (interrupt_loop a n c s)
  unfolding interrupt_loop
  loop-SameX zero c s = refl
  loop-SameX (suc n) c s =
      by_check (loop-SameX n c s) (trap_check_interrupt_pending s.csr.trap s.curr_priv_mode n)
    where
      by_check :
          SameX c.x (interrupt_loop a n c s)
          → (r : Option (TrapRet × PrivilegeLevel))
          → SameX c.x (elim r [
            | none ↦ none
            | some (trap_ret_none, serving) ↦ interrupt_loop a n c s
            | some (trap_ret_irq_pending, serving) ↦ returned a (serve a c s serving 1 n)
          ])
      by_check rest none = tt
      by_check rest (some (trap_ret_none, serving)) = rest
      by_check rest (some (trap_ret_irq_pending, serving)) =
          returned-SameX c.x (serve a c s serving 1 n) (serve-SameRegs c s serving 1 n)

  prepare-SameX : (c : Core) (s : Machine β) → SameX c.x (rv_core_prepare_interrupts a c s)
  unfolding rv_core_prepare_interrupts
  prepare-SameX c s = by_pending s.sync_trap_pending
    where
      by_pending :
          (b : Bool)
          → SameX c.x (
              if b
              then trap_done a (
                  serve a c s
                    (trap_check_exception_delegation s.csr.trap s.curr_priv_mode s.sync_trap_cause)
                    0
                    s.sync_trap_cause)
              else interrupt_loop a 12 c s)
      by_pending true = trap_done-SameX c.x _ (serve-SameRegs c s _ 0 s.sync_trap_cause)
      by_pending false = loop-SameX 12 c s

  process-SameX :
      (c : Core) (s : Machine β) (mei mti msi : ℕ)
      → SameX c.x (rv_core_process_interrupts a c s mei mti msi)
  unfolding rv_core_process_interrupts
  process-SameX c s mei mti msi = prepare-SameX c (rv_core_update_interrupts a s mei mti msi)

  -- In every state that a hart reaches there are thirty-two registers, and `x[0]` is 0.
  pub Reachable-registers :
      (cpu : Cpu β)
      → Reachable cpu
      → (length cpu.hart.core.x ≡ 32) × (get_or cpu.hart.core.x 0 0 ≡ 0)
  unfolding rv_core_init
  Reachable-registers _ (reset bus) = (refl, refl)
  Reachable-registers _ (then_step {cpu = cpu} {next = next} before (instruction run)) =
      let (size, zero_is) = Reachable-registers cpu before in
      let (same_size, same_zero) =
        rv_core_run-registers a bus_access cpu next run zero_is 0 (inl refl) in
      (same_size ∙ size, same_zero ∙ zero_is)
  Reachable-registers _ (then_step {cpu = cpu} before (interrupts {s = s} mei mti msi here e)) =
      let (size, zero_is) = Reachable-registers cpu before in
      let same = subst (SameX cpu.hart.core.x) e (process-SameX cpu.hart.core s mei mti msi) in
      (ap length same ∙ size, ap (λ xs. get_or xs 0 0) same ∙ zero_is)
