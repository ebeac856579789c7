-- ===== src/Tests/MmuRuns.antt =====
-- src/core/mmu/mmu.c and src/core/csr/csr.c on concrete registers, and the traps of a hart after reset.
use riscv_em.Base.{
  Option, ◌∷◌, replicate, ℕ, some, ◌≡◌, refl, ◌⊎◌, inl, inr, [], true, false, ◌==◌, if◌then◌else◌,
  ◌<◌, arith,
}
use riscv_em.Types.{rv32, rv_ok, user_mode, machine_mode, bus_read_access}
use riscv_em.Mmu.{Mmu, BusAccess, mmu_ok, mmu_page_fault, mmu_virt_to_phys, remember_pc}
use riscv_em.Mmu.Table.{Leads, Grants, page_address}
use riscv_em.Mmu.Walk.{ReadsTables}
use riscv_em.Pmp.Check.{pmp_mem_check, reg_loop, entry_loop, check_entry, region}
use riscv_em.Helper.{addr_within, extract, check_bit}
use riscv_em.Mmu.Translate.{IsPaging, root_table, mmu_virt_to_phys_lem}
use riscv_em.Csr.{CsrFile, csr_read_reg, csr_write_reg, read_granted, write_granted}
use riscv_em.Csr.Laws.{csr_read_reg-csr_write_reg}
use riscv_em.Trap.Regs.{TrapRegs, Bank, u_bank, m_bank, status, ie, ip, reg_set}
use riscv_em.Trap.Irq.{
  trap_check_interrupt_pending, trap_ret_none, trap_ret_irq_pending, delegation_loop,
}
use riscv_em.Trap.Delegation.{IsHandledAt, bank_level}
use riscv_em.Trap.Serve.{IsServed}
use riscv_em.Core.State.{Core}
use riscv_em.Core.Machine.{Machine, pmp_checked_bus_access}
use riscv_em.Core.Init.{rv_core_init_csr_regs}
use riscv_em.Core.Interrupt.{rv_core_prepare_interrupts, returned, serve}
use riscv_em.Core.Interrupt.Priority.{
  rv_core_prepare_interrupts-exception, rv_core_prepare_interrupts-first, vectored, trap_taken,
}

-- The first table is at 0x1000, the second at 0x2000, and the page at 0x3000 is the user's.
abbrev tables : ℕ → ℕ
tables address = if address == 0x1000 then 0x801 else if address == 0x2004 then 0xCD7 else 0

abbrev table_bus : BusAccess Unit
table_bus level kind address value len m = (rv_ok, tables address, m)

abbrev paging_unit : Mmu
paging_unit = record { satp_reg = 0x80000001; last_virt_pc = 0; last_phys_pc = 0 }

paging_unit-IsPaging : IsPaging rv32 paging_unit user_mode
paging_unit-IsPaging = record { not_machine = refl; has_mode = λ e. absurd (omega (arith, e)) }

-- User mode on a machine whose first protection entry lets every access below 0x80000000 read; the
-- walk reads the tables through that protection.
abbrev user_csr : CsrFile
user_csr =
    let f = rv_core_init_csr_regs rv32 in
    let p = f.pmp in
    record f { pmp = record p { cfg = 0x09 ∷ replicate 15 0; addr = 0x20000000 ∷ replicate 15 0 } }

abbrev user_state : Option (Machine Unit)
user_state = some (record {
  curr_priv_mode = user_mode;
  curr_cycle = 0;
  sync_trap_pending = false;
  sync_trap_cause = 0;
  sync_trap_tval = 0;
  csr = user_csr;
  bus = tt;
})

protected : BusAccess (Option (Machine Unit))
protected = pmp_checked_bus_access rv32 table_bus

tables_read :
    ReadsTables rv32 protected user_mode bus_read_access false false tables 0x1234 user_state 2
      (root_table rv32 paging_unit)
unfolding protected pmp_checked_bus_access pmp_mem_check reg_loop entry_loop check_entry region
    addr_within extract check_bit rv_core_init_csr_regs
tables_read = (λ value. refl, λ pointer. (λ value. refl, λ p. tt))

mmu_virt_to_phys_example :
    ((mmu_virt_to_phys rv32 user_mode bus_read_access false false protected 0x1234 paging_unit
          user_state
        ≡ (mmu_page_fault, 0, paging_unit, user_state))
      × ¬ (
          (i pte : ℕ) × Leads rv32 tables 0x1234 2 (root_table rv32 paging_unit) i pte
          × Grants user_mode bus_read_access false false i pte))
    ⊎ ((i pte : ℕ) × Leads rv32 tables 0x1234 2 (root_table rv32 paging_unit) i pte
        × Grants user_mode bus_read_access false false i pte
        × (mmu_virt_to_phys rv32 user_mode bus_read_access false false protected 0x1234 paging_unit
              user_state
            ≡ (
              mmu_ok,
              page_address rv32 pte 0x1234 i,
              remember_pc rv32 user_mode bus_read_access false false protected 0x1234 paging_unit
                  (page_address rv32 pte 0x1234 i),
              user_state,
            )))
mmu_virt_to_phys_example =
    mmu_virt_to_phys_lem rv32 protected user_mode bus_read_access false false tables 0x1234
      user_state paging_unit paging_unit-IsPaging tables_read

-- MSTATUS after reset, from machine mode
abbrev mstatus_addr : ℕ
mstatus_addr = 0x300

csr_read_reg-csr_write_reg_example :
    (g : CsrFile) × (csr_write_reg rv32 (rv_core_init_csr_regs rv32) machine_mode mstatus_addr 8
      ≡ some (rv_ok, g))
    × (csr_read_reg rv32 g machine_mode mstatus_addr 0 ≡ some (rv_ok, 8))
unfolding rv_core_init_csr_regs read_granted write_granted
csr_read_reg-csr_write_reg_example =
    csr_read_reg-csr_write_reg rv32 (rv_core_init_csr_regs rv32) machine_mode mstatus_addr 8 0
      (omega arith) tt refl refl

-- A hart in user mode, an environment call that waits, and machine timer and software interrupts
abbrev at_call : Core
at_call = record {
  x = [];
  pc = 0x1004;
  next_pc = 0;
  instruction = 0x73;
  rd = 0;
  rs1 = 0;
  rs2 = 0;
  func3 = 0;
  func5 = 0;
  func6 = 0;
  func7 = 0;
  immediate = 0;
  jump_offset = 0;
}

abbrev called : Machine Unit
called = record {
  curr_priv_mode = user_mode;
  curr_cycle = 1;
  sync_trap_pending = true;
  sync_trap_cause = 8;
  sync_trap_tval = 0;
  csr =
      (let f = rv_core_init_csr_regs rv32 in
        record f { trap = reg_set (reg_set f.trap m_bank ie 0x88) m_bank ip 0x88 });
  bus = tt;
}

rv_core_prepare_interrupts-exception_example :
    (x : Bank) × (t : TrapRegs) × (rv_core_prepare_interrupts rv32 at_call called
      ≡ some (1, vectored at_call called.csr.trap x, trap_taken called t x))
    × IsHandledAt called.csr.trap u_bank 8 (bank_level x)
    × IsServed rv32 called.csr.trap (bank_level x) user_mode x 0 8 0x1004 0 t
unfolding rv_core_init_csr_regs
rv_core_prepare_interrupts-exception_example =
    rv_core_prepare_interrupts-exception rv32 at_call called u_bank refl refl (omega arith)

-- The same without the call, in machine mode with interrupts on
abbrev interrupted : Machine Unit
interrupted =
    let f = called.csr in
    record called {
      curr_priv_mode = machine_mode;
      sync_trap_pending = false;
      sync_trap_cause = 0;
      csr = record f { trap = reg_set f.trap m_bank status 8 };
    }

timer_pending :
    trap_check_interrupt_pending interrupted.csr.trap machine_mode 7
    ≡ some (trap_ret_irq_pending, machine_mode)
unfolding rv_core_init_csr_regs trap_check_interrupt_pending delegation_loop
timer_pending = refl

between : (j : ℕ) → 7 < j → j < 12 → (j ≡ 8) ⊎ (j ≡ 9) ⊎ (j ≡ 10) ⊎ (j ≡ 11)
between j above below = ground arith

none_higher :
    (j : ℕ)
    → 7 < j
    → j < 12
    → trap_check_interrupt_pending interrupted.csr.trap machine_mode j
      ≡ some (trap_ret_none, machine_mode)
unfolding rv_core_init_csr_regs trap_check_interrupt_pending delegation_loop
none_higher j above below = elim (between j above below) [
  | inl e ↦ rw e
  | inr (inl e) ↦ rw e
  | inr (inr (inl e)) ↦ rw e
  | inr (inr (inr e)) ↦ rw e
]

rv_core_prepare_interrupts-first_example :
    rv_core_prepare_interrupts rv32 at_call interrupted
    ≡ returned rv32 (serve rv32 at_call interrupted machine_mode 1 7)
rv_core_prepare_interrupts-first_example =
    rv_core_prepare_interrupts-first rv32 at_call interrupted 7 machine_mode timer_pending
      none_higher refl (omega arith)
