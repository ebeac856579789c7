-- ===== src/Tests/TrapRuns.antt =====
-- The trap unit of src/core/trap/trap.c on RV32.
use riscv_em.Base.{ℕ, ◌≡◌, ◌↔◌, refl, some, arith}
use riscv_em.Base.Bits.{test_bit}
use riscv_em.Types.{rv32, user_mode, supervisor_mode}
use riscv_em.Trap.Regs.{
  TrapRegs, TrapShared, TrapSetup, TrapHandling, status, ip, tvec, m_bank, s_bank, u_bank, reg_get,
  reg_set,
}
use riscv_em.Trap.Irq.{
  trap_set_pending_bits, trap_serve_interrupt, trap_restore_irq_settings, trap_ret_irq_pending,
  trap_check_interrupt_pending, trap_check_exception_delegation,
}
use riscv_em.Trap.Alias.{reg_get-reg_set}
use riscv_em.Trap.Pending.{pending_bit, trap_set_pending_bits_lem}
use riscv_em.Trap.Serve.{
  IsServed, supervisor_user, returned_bit, trap_serve_interrupt_lem, restore-serve,
}
use riscv_em.Trap.Delegation.{
  IsServedAt, IsHandledAt, trap_check_interrupt_pending_iff, trap_check_exception_delegation_lem,
}

-- Machine mode delegates the supervisor's external interrupt, 9, and the user's calls, 8; the
-- interrupt is pending and enabled, and so is supervisor mode.
abbrev setup : TrapSetup
setup = record { isa_reg = 0; edeleg_reg = 0; ideleg_reg = 0; tvec_reg = 0x8000; counteren_reg = 0 }

abbrev delegating : TrapSetup
delegating = record setup { edeleg_reg = 0x100; ideleg_reg = 0x200 }

abbrev handling : TrapHandling
handling = record { scratch_reg = 0; epc_reg = 0; cause_reg = 0; tval_reg = 0 }

abbrev shared_regs : TrapShared
shared_regs = record { status_reg = 0x2; ie_reg = 0x200; ip_reg = 0x200 }

abbrev regs : TrapRegs
regs = record {
  shared = shared_regs;
  m_setup = delegating;
  m_handling = handling;
  s_setup = setup;
  s_handling = handling;
  u_setup = setup;
  u_handling = handling;
}

reg_get-reg_set_example : reg_get (reg_set regs s_bank status 7) m_bank status ≡ 7
reg_get-reg_set_example = reg_get-reg_set regs s_bank m_bank status status 7

trap_set_pending_bits_lem_example :
    ((i : ℕ)
      → test_bit (reg_get (trap_set_pending_bits rv32 regs 1 0 1) m_bank ip) i
        ≡ pending_bit 0x200 0x200 1 0 1 i)
    × (trap_set_pending_bits rv32 regs 1 0 1
        ≡ reg_set regs m_bank ip (reg_get (trap_set_pending_bits rv32 regs 1 0 1) m_bank ip))
trap_set_pending_bits_lem_example = trap_set_pending_bits_lem rv32 regs 1 0 1 (omega arith)

-- The external interrupt, taken from user mode at 0x400.
trap_serve_interrupt_lem_example :
    (t' : TrapRegs) × (trap_serve_interrupt rv32 regs supervisor_mode user_mode 1 9 0x400 0
      ≡ some (t', reg_get regs s_bank tvec))
    × IsServed rv32 regs supervisor_mode user_mode s_bank 1 9 0x400 0 t'
trap_serve_interrupt_lem_example =
    trap_serve_interrupt_lem rv32 regs supervisor_mode user_mode 1 9 0x400 0 refl (omega arith)

restore-serve_example :
    (t' t'' : TrapRegs) × (trap_serve_interrupt rv32 regs supervisor_mode user_mode 1 9 0x400 0
      ≡ some (t', reg_get regs s_bank tvec))
    × (trap_restore_irq_settings rv32 t' supervisor_mode ≡ some (t'', user_mode))
    × ((i : ℕ)
        → test_bit (reg_get t'' s_bank status) i ≡ returned_bit supervisor_mode user_mode 0x2 i)
restore-serve_example =
    restore-serve rv32 regs supervisor_mode user_mode 1 9 0x400 0 refl (omega arith) supervisor_user

trap_check_interrupt_pending_iff_example :
    (trap_check_interrupt_pending regs user_mode 9 ≡ some (trap_ret_irq_pending, supervisor_mode))
    ↔ IsServedAt regs u_bank 9 supervisor_mode
trap_check_interrupt_pending_iff_example =
    trap_check_interrupt_pending_iff regs u_bank 9 supervisor_mode

trap_check_exception_delegation_lem_example :
    IsHandledAt regs u_bank 8 (trap_check_exception_delegation regs user_mode 8)
trap_check_exception_delegation_lem_example = trap_check_exception_delegation_lem regs u_bank 8
