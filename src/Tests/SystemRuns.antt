-- ===== src/Tests/SystemRuns.antt =====
-- src/core/core.c, csr.c and mmu.c on a small system: a bus of one word, and a hart after reset.
use riscv_em.Base.{ℕ, Option, none, some, ◌≡◌, refl, inr, length, get_or, arith, true, false}
use riscv_em.Types.{
  rv32, rv_ok, rv_err, PrivilegeLevel, supervisor_mode, BusAccessType, bus_write_access,
  bus_read_access, bus_instr_access,
}
use riscv_em.Helper.{extract, check_bit}
use riscv_em.Pmp.Check.{pmp_mem_check, reg_loop, entry_loop, check_entry}
use riscv_em.Mmu.{BusAccess, mmu_virt_to_phys, walk, is_bad_entry}
use riscv_em.Core.Words.{signex}
use riscv_em.Core.Alu.{instr_addi}
use riscv_em.Core.Prepare.{i_type_preparation}
use riscv_em.Core.Decode.{call_from_opcode_list}
use riscv_em.Core.Tables.{immediate_list}
use riscv_em.Core.Opcodes.{rv_opcode_list}
use riscv_em.Core.Machine.{
  Machine, mmu_checked_bus_access, check_mprv_override, after_translation, pmp_checked_bus_access,
}
use riscv_em.Core.Machine.Trapping.{
  IsTrapped, StillTrapped, mmu_checked_bus_access-traps, mmu_checked_bus_access-kept,
}
use riscv_em.Core.Reach.{reset, then_step, instruction, Reachable-registers}
use riscv_em.Core.Run.{
  Cpu, rv_core_run, rv_core_fetch, rv_core_decode, rv_core_execute, advance, count_cycle,
}
use riscv_em.Core.Run.Registers.{rv_core_run-registers}
use riscv_em.Core.Init.{rv_core_init, rv_core_init_csr_regs}

-- A bus on which every address is one word
abbrev word_bus : BusAccess ℕ
word_bus level bus_write_access address value len word = (rv_ok, value, value)
word_bus level _ address value len word = (rv_ok, word, word)

abbrev or_start : Option (Cpu ℕ) → Cpu ℕ
or_start none = rv_core_init rv32 0
or_start (some cpu) = cpu

-- ADDI x5, x0, 5
start : Cpu ℕ
start = rv_core_init rv32 0x00500293

next : Cpu ℕ
next = or_start (rv_core_run rv32 word_bus start)

run_next : rv_core_run rv32 word_bus start ≡ some next
unfolding start next rv_core_init rv_core_init_csr_regs rv_core_run rv_core_fetch rv_core_decode
    rv_core_execute advance count_cycle mmu_checked_bus_access check_mprv_override mmu_virt_to_phys
    after_translation pmp_checked_bus_access pmp_mem_check reg_loop entry_loop check_entry
    call_from_opcode_list rv_opcode_list immediate_list i_type_preparation instr_addi signex extract
    check_bit
run_next = refl

rv_core_run-registers_example :
    (length next.hart.core.x ≡ length start.hart.core.x)
    × (get_or next.hart.core.x 7 0 ≡ get_or start.hart.core.x 7 0)
unfolding start next rv_core_init rv_core_init_csr_regs rv_core_run rv_core_fetch rv_core_decode
    rv_core_execute advance count_cycle mmu_checked_bus_access check_mprv_override mmu_virt_to_phys
    after_translation pmp_checked_bus_access pmp_mem_check reg_loop entry_loop check_entry
    call_from_opcode_list rv_opcode_list immediate_list i_type_preparation instr_addi signex extract
    check_bit
rv_core_run-registers_example =
    rv_core_run-registers rv32 word_bus start next run_next refl 7
      (inr (λ e. absurd (omega (arith, e))))

-- From reset, one instruction
Reachable-registers_example : (length next.hart.core.x ≡ 32) × (get_or next.hart.core.x 0 0 ≡ 0)
unfolding start
Reachable-registers_example =
    Reachable-registers rv32 word_bus next (then_step (reset 0x00500293) (instruction run_next))

-- The supervisor's mode with paging on, where no region of physical memory is the supervisor's.
abbrev paged : Machine ℕ
paged = record {
  curr_priv_mode = supervisor_mode;
  curr_cycle = 0;
  sync_trap_pending = false;
  sync_trap_cause = 0;
  sync_trap_tval = 0;
  csr =
      (let f = rv_core_init_csr_regs rv32 in
        record f { mmu = record { satp_reg = 0x80000001; last_virt_pc = 0; last_phys_pc = 0 } });
  bus = 0;
}

word_bus_ok :
    (level : PrivilegeLevel) (kind : BusAccessType) (addr value len word : ℕ)
    → (word_bus level kind addr value len word).0 ≡ rv_ok
word_bus_ok level bus_read_access addr value len word = refl
word_bus_ok level bus_write_access addr value len word = refl
word_bus_ok level bus_instr_access addr value len word = refl

paged_fails :
    (mmu_checked_bus_access rv32 word_bus bus_read_access 0x1234 0 4 (some paged)).0 ≡ rv_err
unfolding rv_core_init_csr_regs mmu_checked_bus_access check_mprv_override mmu_virt_to_phys walk
    is_bad_entry after_translation pmp_checked_bus_access pmp_mem_check reg_loop entry_loop
    check_entry extract check_bit
paged_fails = refl

mmu_checked_bus_access-traps_example :
    IsTrapped (mmu_checked_bus_access rv32 word_bus bus_read_access 0x1234 0 4 (some paged)).2
mmu_checked_bus_access-traps_example =
    mmu_checked_bus_access-traps rv32 word_bus word_bus_ok paged bus_read_access 0x1234 0 4
      paged_fails

-- The same with a store's trap that waits
abbrev waiting : Machine ℕ
waiting = record paged { sync_trap_pending = true; sync_trap_cause = 15; sync_trap_tval = 0x2000 }

mmu_checked_bus_access-kept_example :
    StillTrapped waiting
      (mmu_checked_bus_access rv32 word_bus bus_read_access 0x1234 0 4 (some waiting)).2
mmu_checked_bus_access-kept_example =
    mmu_checked_bus_access-kept rv32 word_bus waiting bus_read_access 0x1234 0 4 refl
