-- ===== src/Csr/Laws.antt =====
-- A register read back after a write, in the file of src/core/csr/csr.c.
use riscv_em.Base.{
  ℕ, ◌<◌, bit_and, bit_or, true, false, some, ltb, ◌==◌, ◌≡◌, refl, arith, ap, ==_self,
}
use riscv_em.Types.{Arch, RvRet, rv_ok, PrivilegeLevel}
use riscv_em.Trap.Regs.{
  TrapReg, TrapRegs, Bank, m_bank, s_bank, reg_get, reg_set, trap_m_read, trap_m_write, trap_s_read,
  trap_s_write,
}
use riscv_em.Trap.Alias.{reg_get-reg_set}
use riscv_em.Mmu.{mmu_read_csr, mmu_write_csr}
use riscv_em.Csr.{
  Callbacks, by_value, by_mmu, by_trap_m, by_trap_s, by_pmp_cfg, by_pmp_addr, CsrFile, addr_max,
  read_granted, write_granted, read_value, write_value, csr_read_reg, csr_write_reg,
}

-- Registers that take every write: all but those of physical memory protection.
abbrev pub TakesWrites : Callbacks → Type 0
TakesWrites (by_pmp_cfg _) = ⊥
TakesWrites (by_pmp_addr _) = ⊥
TakesWrites _ = Unit

-- What a register keeps of a word: the mask counts only where there are no callbacks.
abbrev pub kept : Callbacks → ℕ → ℕ → ℕ
kept by_value mask val = bit_and val mask
kept _ mask val = val

same_reg : (t : TrapRegs) (b : Bank) (r : TrapReg) (v : ℕ) → reg_get (reg_set t b r v) b r ≡ v
same_reg t b r v = ground (arith, reg_get-reg_set t b b r r v)

module _ (a : Arch) (f : CsrFile) (level : PrivilegeLevel) (address val : ℕ) where
  -- What a write through `cb` leaves is what a read through it gives; the rest of the entry stays.
  record Stored (cb : Callbacks) : Type 0 where
    succeeds : (write_value a f level address val cb).0 ≡ rv_ok
    same_flags :
        ((write_value a f level address val cb).1.csr_regs address).access_flags
        ≡ (f.csr_regs address).access_flags
    same_warl :
        ((write_value a f level address val cb).1.csr_regs address).warl_always_enabled
        ≡ (f.csr_regs address).warl_always_enabled
    same_callbacks :
        ((write_value a f level address val cb).1.csr_regs address).callbacks
        ≡ (f.csr_regs address).callbacks
    read_back :
        read_value a
          (write_value a f level address val cb).1
          ((write_value a f level address val cb).1.csr_regs address)
          cb
        ≡ (rv_ok, kept cb (f.csr_regs address).mask val)

  write-Stored : (cb : Callbacks) → TakesWrites cb → Stored cb
  unfolding trap_m_read trap_m_write trap_s_read trap_s_write mmu_read_csr mmu_write_csr
  write-Stored by_value h = record {
    succeeds = refl;
    same_flags = rw (==_self address) refl;
    same_warl = rw (==_self address) refl;
    same_callbacks = rw (==_self address) refl;
    read_back = rw (==_self address) refl;
  }
  write-Stored by_mmu h = record {
    succeeds = refl;
    same_flags = refl;
    same_warl = refl;
    same_callbacks = refl;
    read_back = refl;
  }
  write-Stored (by_trap_m r) h = record {
    succeeds = refl;
    same_flags = refl;
    same_warl = refl;
    same_callbacks = refl;
    read_back = rw (same_reg f.trap m_bank r val);
  }
  write-Stored (by_trap_s r) h = record {
    succeeds = refl;
    same_flags = refl;
    same_warl = refl;
    same_callbacks = refl;
    read_back = rw (same_reg f.trap s_bank r val);
  }
  write-Stored (by_pmp_cfg r) h = absurd h
  write-Stored (by_pmp_addr r) h = absurd h

  module _ (out : ℕ) (ha : address < addr_max) (takes : TakesWrites (f.csr_regs address).callbacks)
      (readable : read_granted level (f.csr_regs address).access_flags ≡ true)
      (writable : write_granted level (f.csr_regs address).access_flags ≡ true) where
    not_above : ltb addr_max address ≡ false
    not_above = ground arith

    not_last : (address == addr_max) ≡ false
    not_last = ground arith

    -- A write of a register that the level may write succeeds, and a read of it then gives the word,
    -- masked if there are no callbacks, with the bits that are always set.
    pub csr_read_reg-csr_write_reg :
        (g : CsrFile) × (csr_write_reg a f level address val ≡ some (rv_ok, g))
        × (csr_read_reg a g level address out
            ≡ some (
              rv_ok,
              bit_or
                  (kept (f.csr_regs address).callbacks (f.csr_regs address).mask val)
                  (f.csr_regs address).warl_always_enabled,
            ))
    unfolding csr_write_reg csr_read_reg
    csr_read_reg-csr_write_reg =
        let cb = (f.csr_regs address).callbacks in
        let stored = write-Stored cb takes in
        (
          (write_value a f level address val cb).1,
          rw (not_above, not_last, writable)
              (ap (λ (r : RvRet). some (r, (write_value a f level address val cb).1))
                stored.succeeds),
          rw (
            not_above, not_last, stored.same_flags, readable, stored.same_warl,
            stored.same_callbacks, stored.read_back,
          ),
        )
