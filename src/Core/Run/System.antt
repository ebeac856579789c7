-- ===== src/Core/Run/System.antt =====
-- What the instructions on control and status registers of src/core/core.c write: at most `rd`.
use riscv_em.Base.{
  ℕ, Bool, true, false, Option, none, some, refl, inl, ◌==◌, leb, if◌then◌else◌, bit_and, bit_or,
}
use riscv_em.Types.{Arch, RvRet, rv_ok, rv_err}
use riscv_em.Trap.Regs.{TrapRegs, Bank, epc, reg_get}
use riscv_em.Types.{PrivilegeLevel, xlen}
use riscv_em.Base.Words.{complement}
use riscv_em.Trap.Irq.{trap_restore_irq_settings}
use riscv_em.Csr.{csr_get_mask, CsrFile, addr_max, csr_write_reg}
use riscv_em.Core.State.{Core, write_rd}
use riscv_em.Core.Machine.{Machine}
use riscv_em.Core.System.{
  after_write, csr_write, after_read, csr_addr, csr_rw_x, csr_rs_x, csr_rc_x, rw_proceed,
  rs_proceed, rc_proceed, return_to, csr_read,
}
use riscv_em.Core.Run.Writes.{AllPairs, write_rd-WritesRd, same-WritesRd}

module _ (a : Arch) {β : Type 0} where
  write-AllPairs :
      (c : Core) (s : Machine β) (v : ℕ) (r : Option (RvRet × CsrFile))
      → AllPairs β c (after_write a c s v r)
  write-AllPairs c s v none = tt
  write-AllPairs c s v (some (rv_err, f)) = same-WritesRd c
  write-AllPairs c s v (some (rv_ok, f)) = write_rd-WritesRd c v

  read-AllPairs :
      (c : Core) (s : Machine β) (proceed : ℕ → Option (Core × Machine β))
      → ((v : ℕ) → AllPairs β c (proceed v))
      → (r : Option (RvRet × ℕ)) → AllPairs β c (after_read a c s proceed r)
  read-AllPairs c s proceed all none = tt
  read-AllPairs c s proceed all (some (rv_err, v)) = same-WritesRd c
  read-AllPairs c s proceed all (some (rv_ok, v)) = all v

  if-AllPairs :
      (c : Core) (p q : Option (Core × Machine β)) (b : Bool)
      → AllPairs β c p
      → AllPairs β c q
      → AllPairs β c (if b then p else q)
  if-AllPairs c p q true hp hq = hp
  if-AllPairs c p q false hp hq = hq

  rw_proceed-AllPairs :
      (v : ℕ) (c : Core) (s : Machine β) (w : ℕ) → AllPairs β c (rw_proceed a v c s w)
  rw_proceed-AllPairs v c s w = write-AllPairs c s (bit_and w (csr_get_mask s.csr (csr_addr c))) (
      csr_write_reg a s.csr s.curr_priv_mode (csr_addr c) (
        bit_or (bit_and w (complement (xlen a) (csr_get_mask s.csr (csr_addr c))))
          (bit_and v (csr_get_mask s.csr (csr_addr c)))))

  pub csr_rw_x-AllPairs : (v : ℕ) (c : Core) (s : Machine β) → AllPairs β c (csr_rw_x a v c s)
  unfolding csr_rw_x
  csr_rw_x-AllPairs v c s =
      if-AllPairs c none
        (after_read a c s (rw_proceed a v c s)
          (if c.rd == 0 then some (rv_ok, 0) else csr_read a c s))
        (leb addr_max (csr_addr c)) tt
        (read-AllPairs c s (rw_proceed a v c s) (rw_proceed-AllPairs v c s)
          (if c.rd == 0 then some (rv_ok, 0) else csr_read a c s))

  rs_proceed-AllPairs :
      (v : ℕ) (c : Core) (s : Machine β) (w : ℕ) → AllPairs β c (rs_proceed a v c s w)
  rs_proceed-AllPairs v c s w =
      if-AllPairs c (some (write_rd c (bit_and w (csr_get_mask s.csr (csr_addr c))), s))
        (csr_write a c s (csr_addr c) (bit_or w (bit_and v (csr_get_mask s.csr (csr_addr c))))
          (bit_and w (csr_get_mask s.csr (csr_addr c))))
        (c.rs1 == 0) (write_rd-WritesRd c (bit_and w (csr_get_mask s.csr (csr_addr c))))
        (write-AllPairs c s (bit_and w (csr_get_mask s.csr (csr_addr c))) (
          csr_write_reg a s.csr s.curr_priv_mode (csr_addr c)
            (bit_or w (bit_and v (csr_get_mask s.csr (csr_addr c))))))

  pub csr_rs_x-AllPairs : (v : ℕ) (c : Core) (s : Machine β) → AllPairs β c (csr_rs_x a v c s)
  unfolding csr_rs_x
  csr_rs_x-AllPairs v c s =
      if-AllPairs c none (after_read a c s (rs_proceed a v c s) (csr_read a c s))
        (leb addr_max (csr_addr c)) tt
        (read-AllPairs c s (rs_proceed a v c s) (rs_proceed-AllPairs v c s) (csr_read a c s))

  rc_proceed-AllPairs :
      (v : ℕ) (c : Core) (s : Machine β) (w : ℕ) → AllPairs β c (rc_proceed a v c s w)
  rc_proceed-AllPairs v c s w =
      if-AllPairs c (some (write_rd c (bit_and w (csr_get_mask s.csr (csr_addr c))), s))
        (csr_write a c s (csr_addr c)
          (bit_and w (complement (xlen a) (bit_and v (csr_get_mask s.csr (csr_addr c)))))
          (bit_and w (csr_get_mask s.csr (csr_addr c))))
        (c.rs1 == 0) (write_rd-WritesRd c (bit_and w (csr_get_mask s.csr (csr_addr c))))
        (write-AllPairs c s (bit_and w (csr_get_mask s.csr (csr_addr c))) (
          csr_write_reg a s.csr s.curr_priv_mode (csr_addr c)
            (bit_and w (complement (xlen a) (bit_and v (csr_get_mask s.csr (csr_addr c)))))))

  pub csr_rc_x-AllPairs : (v : ℕ) (c : Core) (s : Machine β) → AllPairs β c (csr_rc_x a v c s)
  unfolding csr_rc_x
  csr_rc_x-AllPairs v c s =
      if-AllPairs c none (after_read a c s (rc_proceed a v c s) (csr_read a c s))
        (leb addr_max (csr_addr c)) tt
        (read-AllPairs c s (rc_proceed a v c s) (rc_proceed-AllPairs v c s) (csr_read a c s))

  pub return_to-AllPairs : (b : Bank) (c : Core) (s : Machine β) → AllPairs β c (return_to a b c s)
  return_to-AllPairs b c s = by_result (trap_restore_irq_settings a s.csr.trap s.curr_priv_mode)
    where
      after : Option (TrapRegs × PrivilegeLevel) → Option (Core × Machine β)
      after r = elim r [
        | none ↦ none
        | some (trap, restored_priv_level) ↦
            let f = s.csr in
            some (
              record c { next_pc = reg_get trap b epc },
              record s { curr_priv_mode = restored_priv_level; csr = record f { trap = trap } },
            )
      ]

      by_result : (r : Option (TrapRegs × PrivilegeLevel)) → AllPairs β c (after r)
      by_result none = tt
      by_result (some (trap, level)) = record { registers = inl refl; same_instruction = refl }
