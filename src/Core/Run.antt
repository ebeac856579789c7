-- ===== src/Core/Run.antt =====
-- src/core/core.c: one instruction, `rv_core_run`. `none` is the end of the program, undefined behaviour, or no return.
pub mod Writes
pub mod Fields
pub mod Compare
pub mod System
pub mod Tables
pub mod Opcodes
pub mod Registers
use riscv_em.Base.{
  ℕ, zero, suc, ◌+◌, ◌/◌, ◌^◌, Bool, true, false, ◌==◌, if◌then◌else◌, Option, none, some, List, [],
  ◌∷◌, set, bit_and,
}
use riscv_em.Base.Words.{wrap}
use riscv_em.Types.{Arch, rv32, rv64, xlen, xlen_bytes, RvRet, rv_ok, rv_err, bus_instr_access}
use riscv_em.Mmu.{BusAccess}
use riscv_em.Csr.{CsrReg, put_reg}
use riscv_em.Core.State.{Core}
use riscv_em.Core.Hart.{Hart}
use riscv_em.Core.Machine.{Machine, mmu_checked_bus_access}
use riscv_em.Core.Decode.{call_from_opcode_list}
use riscv_em.Core.Execution.{Execution}
use riscv_em.Core.Opcodes.{rv_opcode_list}

-- `rv_core_td` with `execute_cb`
pub record Cpu (β : Type 0) : Type 0 where
  pub hart : Hart (Option (Machine β))
  pub execute_cb : Option (Execution β)

-- The counters that show the cycle: MCYCLE, MINSTRET, CYCLE and TIME, and on RV32 their upper halves
abbrev pub cycle_counters : List ℕ
cycle_counters = 0xB00 ∷ 0xB02 ∷ 0xC00 ∷ 0xC01 ∷ []

abbrev pub cycle_counters_high : Arch → List ℕ
cycle_counters_high rv32 = 0xB80 ∷ 0xB82 ∷ 0xC80 ∷ 0xC81 ∷ []
cycle_counters_high rv64 = []

-- The assignments of one value to the entries at several addresses
abbrev pub put_values : (ℕ → CsrReg) → List ℕ → ℕ → ℕ → CsrReg
put_values regs [] v = regs
put_values regs (address ∷ others) v =
    let reg = regs address in put_values (put_reg regs address (record reg { value = v })) others v

module _ (a : Arch) {β : Type 0} (bus_access : BusAccess β) where
  -- The buffer is `instruction`; on RV64 the access fills the four bytes behind it too, which
  -- decoding clears before they are read.
  unfoldable pub rv_core_fetch : Hart (Option (Machine β)) → RvRet × Hart (Option (Machine β))
  rv_core_fetch h =
      let c = h.core in
      let (ret, value, rest) =
        mmu_checked_bus_access a bus_access bus_instr_access c.pc c.instruction (xlen_bytes a)
          h.rest in
      (ret, record h { core = record c { instruction = wrap 32 value }; rest = rest })

  abbrev pub cleared : Core → Core
  cleared c = record c {
    rd = 0;
    rs1 = 0;
    rs2 = 0;
    func3 = 0;
    func7 = 0;
    immediate = 0;
    jump_offset = 0;
  }

  unfoldable pub rv_core_decode : Cpu β → Option (Cpu β)
  rv_core_decode cpu =
      let h = cpu.hart in
      let opcode = bit_and h.core.instruction 0x7F in
      elim (call_from_opcode_list (rv_opcode_list a (mmu_checked_bus_access a bus_access)) opcode
        (cleared h.core) cpu.execute_cb) [
          | none ↦ none
          | some (c, cb) ↦ some (record { hart = record h { core = c }; execute_cb = cb })
        ]

  -- The clearing of `x[0]`
  abbrev pub clear_x0 : Hart (Option (Machine β)) → Hart (Option (Machine β))
  clear_x0 h = let c = h.core in record h { core = record c { x = set c.x 0 0 } }

  abbrev pub call_execution : Option (Execution β) → Execution β
  call_execution none h = none
  call_execution (some execution) h = execution h

  unfoldable pub rv_core_execute : Cpu β → Option (Cpu β)
  rv_core_execute cpu = elim (call_execution cpu.execute_cb cpu.hart) [
    | none ↦ none
    | some h ↦ some (record cpu { hart = clear_x0 h })
  ]

  -- The cycle's count, and the counters that show it
  unfoldable pub count_cycle : Machine β → Machine β
  count_cycle s =
      let f = s.csr in
      let curr_cycle = wrap 64 (s.curr_cycle + 1) in
      let low = put_values f.csr_regs cycle_counters (wrap (xlen a) curr_cycle) in
      record s {
        curr_cycle = curr_cycle;
        csr = record f { csr_regs = put_values low (cycle_counters_high a) (curr_cycle / 2 ^ 32) };
      }

  abbrev pub count_if_defined : Option (Machine β) → Option (Machine β)
  count_if_defined none = none
  count_if_defined (some s) = some (count_cycle s)

  -- The end of `rv_core_run`
  unfoldable pub advance : Hart (Option (Machine β)) → Hart (Option (Machine β))
  advance h =
      let c = h.core in
      let pc = if c.next_pc == 0 then wrap (xlen a) (c.pc + 4) else c.next_pc in
      record h { core = record c { pc = pc }; rest = count_if_defined h.rest }

  abbrev pub advance_cpu : Option (Cpu β) → Option (Cpu β)
  advance_cpu none = none
  advance_cpu (some cpu) = some (record cpu { hart = advance cpu.hart })

  abbrev pub decode_and_execute : Cpu β → Option (Cpu β)
  decode_and_execute cpu = elim (rv_core_decode cpu) [
    | none ↦ none
    | some decoded ↦ rv_core_execute decoded
  ]

  unfoldable pub rv_core_run : Cpu β → Option (Cpu β)
  rv_core_run cpu =
      let h = cpu.hart in
      let c = h.core in
      let (ret, fetched) = rv_core_fetch (record h { core = record c { next_pc = 0 } }) in
      let ready = record cpu { hart = fetched } in
      elim ret [
        | rv_ok ↦ advance_cpu (decode_and_execute ready)
        | rv_err ↦ advance_cpu (some ready)
      ]
