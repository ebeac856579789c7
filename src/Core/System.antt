-- ===== src/Core/System.antt =====
-- src/core/core.c: the instructions on control and status registers, the environment call, and the
-- returns from traps. `none` is the end of the program, undefined behaviour, or no return.
use riscv_em.Base.{ℕ, ◌+◌, leb, ◌==◌, if◌then◌else◌, Option, none, some, bit_and, bit_or}
use riscv_em.Base.Words.{wrap, complement}
use riscv_em.Types.{Arch, xlen, RvRet, rv_ok, rv_err, level_number}
use riscv_em.Trap.Regs.{Bank, m_bank, s_bank, epc, reg_get}
use riscv_em.Trap.Irq.{trap_restore_irq_settings}
use riscv_em.Csr.{CsrFile, addr_max, csr_get_mask, csr_read_reg, csr_write_reg}
use riscv_em.Core.State.{Core, rs1_val, write_rd}
use riscv_em.Core.Machine.{Machine, prepare_sync_trap}

-- `trap_cause_illegal_instr` and `trap_cause_user_ecall`
abbrev pub illegal_instr : ℕ
illegal_instr = 2

abbrev pub user_ecall : ℕ
user_ecall = 8

-- `uint16_t csr_addr`
abbrev pub csr_addr : Core → ℕ
csr_addr c = wrap 16 c.immediate

module _ (a : Arch) {β : Type 0} where
  -- The calls that fail with an illegal instruction
  abbrev pub illegal : Core → Machine β → Option (Core × Machine β)
  illegal c s = some (c, prepare_sync_trap s illegal_instr 0)

  -- The end of the three functions: the result of the write, and what `rd` takes.
  abbrev pub after_write :
      Core → Machine β → ℕ → Option (RvRet × CsrFile) → Option (Core × Machine β)
  after_write c s v none = none
  after_write c s v (some (rv_err, f)) = illegal c (record s { csr = f })
  after_write c s v (some (rv_ok, f)) = some (write_rd c v, record s { csr = f })

  abbrev pub csr_write : Core → Machine β → ℕ → ℕ → ℕ → Option (Core × Machine β)
  csr_write c s addr new_csr_val v =
      after_write c s v (csr_write_reg a s.csr s.curr_priv_mode addr new_csr_val)

  -- What follows a read: `proceed` takes the value read.
  abbrev pub after_read :
      Core
      → Machine β
      → (ℕ → Option (Core × Machine β))
      → Option (RvRet × ℕ)
      → Option (Core × Machine β)
  after_read c s proceed none = none
  after_read c s proceed (some (rv_err, csr_val)) = illegal c s
  after_read c s proceed (some (rv_ok, csr_val)) = proceed csr_val

  abbrev pub csr_read : Core → Machine β → Option (RvRet × ℕ)
  csr_read c s = csr_read_reg a s.csr s.curr_priv_mode (csr_addr c) 0

  -- `csr_get_mask` comes before the check of the address.
  abbrev pub in_array : Core → Option (Core × Machine β) → Option (Core × Machine β)
  in_array c run = if leb addr_max (csr_addr c) then none else run

  -- The rest of the function, once the register is read
  abbrev pub rw_proceed : ℕ → Core → Machine β → ℕ → Option (Core × Machine β)
  rw_proceed new_val c s csr_val =
      let csr_mask = csr_get_mask s.csr (csr_addr c) in
      let not_allowed_bits = bit_and csr_val (complement (xlen a) csr_mask) in
      csr_write c s (csr_addr c) (bit_or not_allowed_bits (bit_and new_val csr_mask))
        (bit_and csr_val csr_mask)

  unfoldable pub csr_rw_x : ℕ → Core → Machine β → Option (Core × Machine β)
  csr_rw_x new_val c s = in_array c (
      after_read c s (rw_proceed new_val c s) (if c.rd == 0 then some (rv_ok, 0) else csr_read c s))

  -- The rest of the function, once the register is read
  abbrev pub rs_proceed : ℕ → Core → Machine β → ℕ → Option (Core × Machine β)
  rs_proceed new_val c s csr_val =
      let csr_mask = csr_get_mask s.csr (csr_addr c) in
      if c.rs1 == 0
      then some (write_rd c (bit_and csr_val csr_mask), s)
      else csr_write c s (csr_addr c) (bit_or csr_val (bit_and new_val csr_mask))
          (bit_and csr_val csr_mask)

  unfoldable pub csr_rs_x : ℕ → Core → Machine β → Option (Core × Machine β)
  csr_rs_x new_val c s = in_array c (after_read c s (rs_proceed new_val c s) (csr_read c s))

  -- The rest of the function, once the register is read
  abbrev pub rc_proceed : ℕ → Core → Machine β → ℕ → Option (Core × Machine β)
  rc_proceed new_val c s csr_val =
      let csr_mask = csr_get_mask s.csr (csr_addr c) in
      if c.rs1 == 0
      then some (write_rd c (bit_and csr_val csr_mask), s)
      else csr_write c s (csr_addr c)
          (bit_and csr_val (complement (xlen a) (bit_and new_val csr_mask)))
          (bit_and csr_val csr_mask)

  unfoldable pub csr_rc_x : ℕ → Core → Machine β → Option (Core × Machine β)
  csr_rc_x new_val c s = in_array c (after_read c s (rc_proceed new_val c s) (csr_read c s))

  unfoldable pub instr_csrrw : Core → Machine β → Option (Core × Machine β)
  instr_csrrw c = csr_rw_x (rs1_val c) c

  unfoldable pub instr_csrrs : Core → Machine β → Option (Core × Machine β)
  instr_csrrs c = csr_rs_x (rs1_val c) c

  unfoldable pub instr_csrrc : Core → Machine β → Option (Core × Machine β)
  instr_csrrc c = csr_rc_x (rs1_val c) c

  unfoldable pub instr_csrrwi : Core → Machine β → Option (Core × Machine β)
  instr_csrrwi c = csr_rw_x c.rs1 c

  unfoldable pub instr_csrrsi : Core → Machine β → Option (Core × Machine β)
  instr_csrrsi c = csr_rs_x c.rs1 c

  unfoldable pub instr_csrrci : Core → Machine β → Option (Core × Machine β)
  instr_csrrci c = csr_rc_x c.rs1 c

  unfoldable pub instr_ecall : Core → Machine β → Option (Core × Machine β)
  instr_ecall c s = some (c, prepare_sync_trap s (user_ecall + level_number s.curr_priv_mode) 0)

  unfoldable pub instr_ebreak : Core → Machine β → Option (Core × Machine β)
  instr_ebreak c s = some (c, s)

  -- Both returns, which differ in the table that has the program counter
  abbrev pub return_to : Bank → Core → Machine β → Option (Core × Machine β)
  return_to b c s = elim (trap_restore_irq_settings a s.csr.trap s.curr_priv_mode) [
    | none ↦ none
    | some (trap, restored_priv_level) ↦
        let f = s.csr in
        some (
          record c { next_pc = reg_get trap b epc },
          record s { curr_priv_mode = restored_priv_level; csr = record f { trap = trap } },
        )
  ]

  unfoldable pub instr_mret : Core → Machine β → Option (Core × Machine β)
  instr_mret = return_to m_bank

  unfoldable pub instr_sret : Core → Machine β → Option (Core × Machine β)
  instr_sret = return_to s_bank

  -- The loop without end
  unfoldable pub instr_uret : Core → Machine β → Option (Core × Machine β)
  instr_uret c s = none
