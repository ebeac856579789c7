-- ===== src/Tests/AtomicRuns.antt =====
-- LR, SC and the read-modify-write instructions of src/core/core.c on four or eight bytes of memory.
use riscv_em.Base.{
  ap, zero, suc, get_or, Option, some, ℕ, ◌+◌, ◌%◌, ◌^◌, ◌≡◌, refl, ◌∷◌, replicate, bit_and, bit_or,
  bit_xor, ltb, ◌==◌, if◌then◌else◌, false, arith,
}
use riscv_em.Base.Bits.{test_bit}
use riscv_em.Base.Words.{wrap}
use riscv_em.Types.{Arch, machine_mode, rv32, rv64, rv_ok, bus_write_access}
use riscv_em.Core.State.{Core, rs1_val, rs2_val, write_rd}
use riscv_em.Core.Words.{signex, ltb_signed}
use riscv_em.Helper.{extract}
use riscv_em.Mmu.{BusAccess}
use riscv_em.Core.Machine.{Machine, mmu_checked_bus_access}
use riscv_em.Core.Machine.Memory.{IsOpen, IsOpenState, bus_value, mmu_checked_bus_access-IsMemory}
use riscv_em.Core.Init.{rv_core_init_csr_regs}
use riscv_em.Core.Hart.{Hart, Access, IsMemory}
use riscv_em.Core.Load.{effective_address, load, store_rs2, instr_sw}
use riscv_em.Core.Load.RoundTrip.{load-store_rs2}
use riscv_em.Core.Atomic.{
  instr_lr_w, instr_sc_w, instr_amoswap_w, instr_amoadd_w, instr_amoxor_w, instr_amoand_w,
  instr_amoor_w, instr_amomin_w, instr_amomax_w, instr_amominu_w, instr_amomaxu_w, instr_amoswap_d,
  instr_amoadd_d, instr_amoxor_d, instr_amoand_d, instr_amoor_d, instr_amomin_d, instr_amomax_d,
  instr_amominu_d, instr_amomaxu_d,
}
use riscv_em.Core.Atomic.Effect.{IsUpdate, amo_w_lem, amo_d_lem}
use riscv_em.Core.Atomic.Reservation.{instr_sc_w-instr_lr_w}

-- A bus with one cell of `bits` bits, which every address reaches.
unfoldable cell_bus : ℕ → BusAccess ℕ
cell_bus bits level access_type address value len cell = elim access_type [
  | bus_write_access ↦ (rv_ok, value, wrap bits value)
  | _ ↦ (rv_ok, wrap bits cell, cell)
]

cell_bus-IsMemory :
    (address : ℕ) → IsMemory (cell_bus 32 machine_mode) (λ cell. Unit) (wrap 32) address 4
unfolding cell_bus
cell_bus-IsMemory address = record {
  fits = λ m ready. omega arith;
  read = λ m ready. refl;
  write = λ m v ready h. (tt, omega arith);
}

wide_bus-IsMemory :
    (address : ℕ) → IsMemory (cell_bus 64 machine_mode) (λ cell. Unit) (wrap 64) address 8
unfolding cell_bus
wide_bus-IsMemory address = record {
  fits = λ m ready. omega arith;
  read = λ m ready. refl;
  write = λ m v ready h. (tt, omega arith);
}

-- A hart's access to that bus, and its machine after reset
abbrev access : Access (Option (Machine ℕ))
access = mmu_checked_bus_access rv32 (cell_bus 32)

abbrev wide_access : Access (Option (Machine ℕ))
wide_access = mmu_checked_bus_access rv64 (cell_bus 64)

abbrev machine : Arch → Machine ℕ
machine a = record {
  curr_priv_mode = machine_mode;
  curr_cycle = 0;
  sync_trap_pending = false;
  sync_trap_cause = 0;
  sync_trap_tval = 0;
  csr = rv_core_init_csr_regs a;
  bus = 0xFFFFFFFF;
}

zeros : (n j : ℕ) → let z : ℕ = 0 in get_or (replicate n z) j z ≡ z
zeros zero j = refl
zeros (suc n) zero = refl
zeros (suc n) (suc j) = zeros n j

machine-IsOpen : (a : Arch) → IsOpen a (λ cell. Unit) (machine a)
unfolding rv_core_init_csr_regs extract
machine-IsOpen rv32 = record {
  in_machine_mode = refl;
  no_mprv = refl;
  no_lock = λ j h. ap (λ (n : ℕ). test_bit n 7) (zeros 16 j);
  bus_ready = tt;
}
machine-IsOpen rv64 = record {
  in_machine_mode = refl;
  no_mprv = refl;
  no_lock = λ j h. ap (λ (n : ℕ). test_bit n 7) (zeros 16 j);
  bus_ready = tt;
}

access-IsMemory :
    IsMemory access (IsOpenState rv32 (λ cell. Unit)) (bus_value (wrap 32)) 0x80000000 4
access-IsMemory =
    mmu_checked_bus_access-IsMemory rv32 (cell_bus 32) (λ cell. Unit) 0x80000000 4
      (record { nonempty = omega arith; no_wrap = omega arith }) (wrap 32)
      (cell_bus-IsMemory 0x80000000)

wide_access-IsMemory :
    IsMemory wide_access (IsOpenState rv64 (λ cell. Unit)) (bus_value (wrap 64)) 0x80000000 8
wide_access-IsMemory =
    mmu_checked_bus_access-IsMemory rv64 (cell_bus 64) (λ cell. Unit) 0x80000000 8
      (record { nonempty = omega arith; no_wrap = omega arith }) (wrap 64)
      (wide_bus-IsMemory 0x80000000)

-- x5 holds the address, x6 the operand, x7 is the target.
abbrev decoded : Core
decoded = record {
  x = 0 ∷ (0 ∷ (0 ∷ (0 ∷ (0 ∷ (0x80000000 ∷ (5 ∷ replicate 25 0))))));
  pc = 0x1000;
  next_pc = 0;
  instruction = 0;
  rd = 7;
  rs1 = 5;
  rs2 = 6;
  func3 = 2;
  func5 = 0;
  func6 = 0;
  func7 = 0;
  immediate = 0;
  jump_offset = 0;
}

abbrev hart : Arch → Hart (Option (Machine ℕ))
hart a = record { core = decoded; lr_valid = false; lr_address = 0; rest = some (machine a) }

instr_sc_w-instr_lr_w_example :
    let reserved = instr_lr_w rv32 access (hart rv32) in
    let h' : Hart (Option (Machine ℕ)) = record reserved { core = decoded } in
    let done = instr_sc_w rv32 access h' in
    (done.rest
      ≡ (if rs1_val decoded == 0x80000000 then (instr_sw rv32 access h').rest else reserved.rest))
    × (done.core
        ≡ (if rs1_val decoded == 0x80000000 then write_rd decoded 0 else write_rd decoded 1))
    × (done.lr_valid ≡ false)
instr_sc_w-instr_lr_w_example = instr_sc_w-instr_lr_w rv32 access (hart rv32) decoded

amo_w_lem_example :
    let extended = signex 32 32 0xFFFFFFFF in
    IsUpdate (bus_value (wrap 32)) (instr_amoswap_w rv32 access (hart rv32)) extended (5)
    × IsUpdate
        (bus_value (wrap 32))
        (instr_amoadd_w rv32 access (hart rv32))
        extended
        ((0xFFFFFFFF + 5) % 2 ^ 32)
    × IsUpdate
        (bus_value (wrap 32))
        (instr_amoxor_w rv32 access (hart rv32))
        extended
        (bit_xor 0xFFFFFFFF 5)
    × IsUpdate
        (bus_value (wrap 32))
        (instr_amoand_w rv32 access (hart rv32))
        extended
        (bit_and 0xFFFFFFFF 5)
    × IsUpdate
        (bus_value (wrap 32))
        (instr_amoor_w rv32 access (hart rv32))
        extended
        (bit_or 0xFFFFFFFF 5)
    × IsUpdate
        (bus_value (wrap 32))
        (instr_amomin_w rv32 access (hart rv32))
        extended
        (if ltb_signed 32 0xFFFFFFFF 5 then 0xFFFFFFFF else 5)
    × IsUpdate
        (bus_value (wrap 32))
        (instr_amomax_w rv32 access (hart rv32))
        extended
        (if ltb_signed 32 5 0xFFFFFFFF then 0xFFFFFFFF else 5)
    × IsUpdate
        (bus_value (wrap 32))
        (instr_amominu_w rv32 access (hart rv32))
        extended
        (if ltb 0xFFFFFFFF 5 then 0xFFFFFFFF else 5)
    × IsUpdate
        (bus_value (wrap 32))
        (instr_amomaxu_w rv32 access (hart rv32))
        extended
        (if ltb 5 0xFFFFFFFF then 0xFFFFFFFF else 5)
amo_w_lem_example =
    amo_w_lem rv32 access (IsOpenState rv32 (λ cell. Unit)) (bus_value (wrap 32)) (hart rv32)
      access-IsMemory (machine-IsOpen rv32) refl (omega arith) (omega arith)

amo_d_lem_example :
    let extended : ℕ = 0xFFFFFFFF in
    IsUpdate (bus_value (wrap 64)) (instr_amoswap_d rv64 wide_access (hart rv64)) extended (5)
    × IsUpdate
        (bus_value (wrap 64))
        (instr_amoadd_d rv64 wide_access (hart rv64))
        extended
        ((0xFFFFFFFF + 5) % 2 ^ 64)
    × IsUpdate
        (bus_value (wrap 64))
        (instr_amoxor_d rv64 wide_access (hart rv64))
        extended
        (bit_xor 0xFFFFFFFF 5)
    × IsUpdate
        (bus_value (wrap 64))
        (instr_amoand_d rv64 wide_access (hart rv64))
        extended
        (bit_and 0xFFFFFFFF 5)
    × IsUpdate
        (bus_value (wrap 64))
        (instr_amoor_d rv64 wide_access (hart rv64))
        extended
        (bit_or 0xFFFFFFFF 5)
    × IsUpdate
        (bus_value (wrap 64))
        (instr_amomin_d rv64 wide_access (hart rv64))
        extended
        (if ltb_signed 64 0xFFFFFFFF 5 then 0xFFFFFFFF else 5)
    × IsUpdate
        (bus_value (wrap 64))
        (instr_amomax_d rv64 wide_access (hart rv64))
        extended
        (if ltb_signed 64 5 0xFFFFFFFF then 0xFFFFFFFF else 5)
    × IsUpdate
        (bus_value (wrap 64))
        (instr_amominu_d rv64 wide_access (hart rv64))
        extended
        (if ltb 0xFFFFFFFF 5 then 0xFFFFFFFF else 5)
    × IsUpdate
        (bus_value (wrap 64))
        (instr_amomaxu_d rv64 wide_access (hart rv64))
        extended
        (if ltb 5 0xFFFFFFFF then 0xFFFFFFFF else 5)
amo_d_lem_example =
    amo_d_lem wide_access (IsOpenState rv64 (λ cell. Unit)) (bus_value (wrap 64)) (hart rv64)
      wide_access-IsMemory (machine-IsOpen rv64) refl (omega arith) (omega arith)

at_address :
    IsMemory access
      (IsOpenState rv32 (λ cell. Unit))
      (bus_value (wrap 32))
      (effective_address rv32 access decoded)
      4
unfolding signex
at_address = access-IsMemory

-- SW and then LW, with x5 as the address of both.
load-store_rs2_example :
    let loaded =
      load rv32 access 4
        (signex 32 32)
        (record (store_rs2 rv32 access 4 (hart rv32)) { core = decoded }) in
    loaded.core ≡ write_rd decoded (signex 32 32 (wrap 32 (rs2_val decoded)))
load-store_rs2_example =
    load-store_rs2 rv32 access (IsOpenState rv32 (λ cell. Unit)) (bus_value (wrap 32)) 4
      (signex 32 32) (hart rv32) decoded at_address (machine-IsOpen rv32) refl

mmu_checked_bus_access-IsMemory_example :
    IsMemory access (IsOpenState rv32 (λ cell. Unit)) (bus_value (wrap 32)) 0x90000000 4
mmu_checked_bus_access-IsMemory_example =
    mmu_checked_bus_access-IsMemory rv32 (cell_bus 32) (λ cell. Unit) 0x90000000 4
      (record { nonempty = omega arith; no_wrap = omega arith }) (wrap 32)
      (cell_bus-IsMemory 0x90000000)
