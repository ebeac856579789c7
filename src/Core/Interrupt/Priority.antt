-- ===== src/Core/Interrupt/Priority.antt =====
-- `rv_core_prepare_interrupts` of src/core/core.c: which trap is served in a cycle.
use riscv_em.Base.{
  ℕ, Bool, zero, suc, ◌^◌, ◌≤◌, ◌<◌, ◌≡◌, refl, sym, subst, ap, ◌∙◌, inl, inr, ==-cases, true,
  false, Option, none, some, arith, if◌then◌else◌,
}
use riscv_em.Types.{Arch, xlen, PrivilegeLevel, machine_mode}
use riscv_em.Trap.Regs.{
  TrapRegs, Bank, m_bank, s_bank, u_bank, status, tvec, get_priv_regs, reg_get,
}
use riscv_em.Trap.Irq.{
  TrapRet, trap_ret_none, trap_ret_irq_pending, trap_check_interrupt_pending,
  trap_check_exception_delegation, trap_serve_interrupt,
}
use riscv_em.Trap.Delegation.{bank_level, IsHandledAt, trap_check_exception_delegation_lem}
use riscv_em.Trap.Serve.{IsServed, trap_serve_interrupt_lem}
use riscv_em.Core.State.{Core}
use riscv_em.Core.Machine.{Machine}
use riscv_em.Core.Interrupt.{serve, interrupt_loop, returned, trap_done, rv_core_prepare_interrupts}

level_regs : (b : Bank) → get_priv_regs (bank_level b) ≡ some b
level_regs m_bank = refl
level_regs s_bank = refl
level_regs u_bank = refl

-- The hart and the machine once the exception of `s` is served at the level of `x`
abbrev pub vectored : Core → TrapRegs → Bank → Core
vectored c t x = record c { pc = reg_get t x tvec }

abbrev pub trap_taken : {β : Type 0} → Machine β → TrapRegs → Bank → Machine β
trap_taken s t x =
    let f = s.csr in
    record s {
      curr_priv_mode = bank_level x;
      sync_trap_pending = false;
      sync_trap_cause = 0;
      sync_trap_tval = 0;
      csr = record f { trap = t };
    }

module _ (a : Arch) {β : Type 0} (c : Core) (s : Machine β) where
  -- `serve` after the call of `trap_serve_interrupt`
  abbrev after_serve : PrivilegeLevel → Option (TrapRegs × ℕ) → Option (Core × Machine β)
  after_serve serving none = none
  after_serve serving (some (trap, pc)) =
      let f = s.csr in
      some (
        record c { pc = pc },
        record s { curr_priv_mode = serving; csr = record f { trap = trap } },
      )

  serve-eq :
      (serving : PrivilegeLevel) (is_interrupt cause : ℕ)
      → serve a c s serving is_interrupt cause
        ≡ after_serve serving (
            trap_serve_interrupt a s.csr.trap serving s.curr_priv_mode is_interrupt cause c.pc
              s.sync_trap_tval)
  unfolding serve
  serve-eq serving is_interrupt cause = by_result (
      trap_serve_interrupt a s.csr.trap serving s.curr_priv_mode is_interrupt cause c.pc
        s.sync_trap_tval)
    where
      by_result :
          (r : Option (TrapRegs × ℕ))
          → (let f = s.csr in
              let t : Option (Core × Machine β) = elim r [
                | none ↦ none
                | some (trap, pc) ↦ some (
                  record c { pc = pc },
                  record s { curr_priv_mode = serving; csr = record f { trap = trap } },
                )
              ] in
              t)
            ≡ after_serve serving r
      by_result none = refl
      by_result (some (trap, pc)) = refl

  -- The two ways of `rv_core_prepare_interrupts`
  abbrev by_trap : Bool → Option (ℕ × Core × Machine β)
  by_trap b =
      if b
      then trap_done a (
          serve a c s
            (trap_check_exception_delegation s.csr.trap s.curr_priv_mode s.sync_trap_cause) 0
            s.sync_trap_cause)
      else interrupt_loop a 12 c s

  -- The loop at an interrupt, after the check
  abbrev after_check :
      ℕ
      → Option (ℕ × Core × Machine β)
      → Option (TrapRet × PrivilegeLevel)
      → Option (ℕ × Core × Machine β)
  after_check n rest none = none
  after_check n rest (some (trap_ret_none, serving)) = rest
  after_check n rest (some (trap_ret_irq_pending, serving)) = returned a (serve a c s serving 1 n)

  loop-suc :
      (n : ℕ)
      → interrupt_loop a (suc n) c s
        ≡ after_check n
            (interrupt_loop a n c s)
            (trap_check_interrupt_pending s.csr.trap s.curr_priv_mode n)
  unfolding interrupt_loop
  loop-suc n = by_result (trap_check_interrupt_pending s.csr.trap s.curr_priv_mode n)
    where
      by_result :
          (r : Option (TrapRet × PrivilegeLevel))
          → (let t : Option (ℕ × Core × Machine β) = elim r [
            | none ↦ none
            | some (trap_ret_none, serving) ↦ interrupt_loop a n c s
            | some (trap_ret_irq_pending, serving) ↦ returned a (serve a c s serving 1 n)
          ] in
              t)
            ≡ after_check n (interrupt_loop a n c s) r
      by_result none = refl
      by_result (some (trap_ret_none, serving)) = refl
      by_result (some (trap_ret_irq_pending, serving)) = refl

  module _ (b : Bank) (at_level : s.curr_priv_mode ≡ bank_level b)
      (pending : s.sync_trap_pending ≡ true)
      (fits : reg_get s.csr.trap m_bank status < 2 ^ xlen a) where
    -- A trap that waits is served at once, whatever interrupts wait: at an implemented level that
    -- delegation leads to, with the trap registers of that level filled, and then none waits.
    pub rv_core_prepare_interrupts-exception :
        (x : Bank) × (t : TrapRegs) × (rv_core_prepare_interrupts a c s
          ≡ some (1, vectored c s.csr.trap x, trap_taken s t x))
        × IsHandledAt s.csr.trap b s.sync_trap_cause (bank_level x)
        × IsServed a s.csr.trap
            (bank_level x)
            s.curr_priv_mode
            x
            0
            s.sync_trap_cause
            c.pc
            s.sync_trap_tval
            t
    unfolding rv_core_prepare_interrupts
    rv_core_prepare_interrupts-exception =
        let handled = trap_check_exception_delegation_lem s.csr.trap b s.sync_trap_cause in
        let (x, at_x) = handled.implemented in
        let (t, served, is_served) =
          trap_serve_interrupt_lem a s.csr.trap (bank_level x) s.curr_priv_mode 0 s.sync_trap_cause
            c.pc s.sync_trap_tval (level_regs x) fits in
        (
          x,
          t,
          ap by_trap pending
              ∙ ap (λ l. trap_done a (serve a c s l 0 s.sync_trap_cause))
                  (ap (λ p. trap_check_exception_delegation s.csr.trap p s.sync_trap_cause) at_level
                    ∙ sym at_x)
              ∙ ap (trap_done a) (
                  serve-eq (bank_level x) 0 s.sync_trap_cause
                  ∙ ap (after_serve (bank_level x)) served),
          subst (λ l. IsHandledAt s.csr.trap b s.sync_trap_cause l) (sym at_x) handled,
          is_served,
        )

  module _ (k : ℕ) (serving : PrivilegeLevel)
      (here : trap_check_interrupt_pending s.csr.trap s.curr_priv_mode k
        ≡ some (trap_ret_irq_pending, serving))
      (higher : (j : ℕ)
        → k < j
        → j < 12
        → trap_check_interrupt_pending s.csr.trap s.curr_priv_mode j
          ≡ some (trap_ret_none, machine_mode)) where
    loop_first :
        (n : ℕ) → k < n → n ≤ 12 → interrupt_loop a n c s ≡ returned a (serve a c s serving 1 k)
    unfolding interrupt_loop
    loop_first zero h l = absurd (omega arith)
    loop_first (suc n) h l = loop-suc n ∙ elim (==-cases k n) [
      | inl same ↦
          subst
            (λ (j : ℕ).
              after_check j (interrupt_loop a j c s)
                (trap_check_interrupt_pending s.csr.trap s.curr_priv_mode j)
              ≡ returned a (serve a c s serving 1 k))
            same (ap (after_check k (interrupt_loop a k c s)) here)
      | inr other ↦
          ap (after_check n (interrupt_loop a n c s)) (higher n (omega arith) (omega arith))
          ∙ loop_first n (omega arith) (omega arith)
    ]

    -- If no trap waits, the interrupt of the highest number that is pending is served.
    pub rv_core_prepare_interrupts-first :
        s.sync_trap_pending ≡ false
        → k < 12
        → rv_core_prepare_interrupts a c s ≡ returned a (serve a c s serving 1 k)
    unfolding rv_core_prepare_interrupts
    rv_core_prepare_interrupts-first idle h = ap by_trap idle ∙ loop_first 12 h (omega arith)
