-- ===== src/Trap/Serve.antt =====
-- `trap_serve_interrupt` and `trap_restore_irq_settings` of src/core/trap/trap.c as a whole.
use riscv_em.Base.{
  ℕ, ◌+◌, ◌-◌, ◌*◌, ◌^◌, ◌<◌, ◌≡◌, refl, Bool, true, false, ◌==◌, if◌then◌else◌, some, bit_or,
  arith,
}
use riscv_em.Base.Bits.{test_bit, test_bit_ext, test_bit_above}
use riscv_em.Base.Words.{wrap, sub_word}
use riscv_em.Types.{
  Arch, xlen, xlen_bounds, PrivilegeLevel, priv_level_unknown, user_mode, supervisor_mode,
  reserved_mode, machine_mode, level_number,
}
use riscv_em.Helper.Laws.{test_bit-extract}
use riscv_em.Trap.Regs.{
  TrapRegs, TrapReg, status, tvec, epc, cause, tval, Bank, get_priv_regs, reg_get, reg_set,
}
use riscv_em.Trap.Irq.{
  save_previous, stack_enable, saved_previous, unstack_enable, trap_serve_interrupt,
  trap_restore_irq_settings, level_of_rank,
}
use riscv_em.Trap.Alias.{same_bank}
use riscv_em.Trap.Stack.{
  served_bit, in_previous_field, previous_field_start, test_bit-served, test_bit-unstack_enable,
  served-lt,
}

-- The registers that serving a trap at bank `b` writes.
abbrev pub is_served_reg : Bank → Bank → TrapReg → Bool
is_served_reg b b' status = true
is_served_reg b b' epc = same_bank b b'
is_served_reg b b' cause = same_bank b b'
is_served_reg b b' tval = same_bank b b'
is_served_reg b b' _ = false

-- What serving a trap at `serving` with registers `b` makes of `t`.
pub record IsServed (a : Arch) (t : TrapRegs) (serving previous : PrivilegeLevel) (b : Bank)
    (is_interrupt cause_nr curr_pc tval_nr : ℕ) (t' : TrapRegs) : Type 0 where
  pub epc_is :
      reg_get t' b epc ≡ (if is_interrupt == 0 then sub_word (xlen a) curr_pc 4 else curr_pc)
  pub cause_is :
      reg_get t' b cause ≡ bit_or (wrap (xlen a) (is_interrupt * 2 ^ (xlen a - 1))) cause_nr
  pub tval_is : reg_get t' b tval ≡ tval_nr
  pub status_digits :
      (i : ℕ)
      → test_bit (reg_get t' b status) i ≡ served_bit serving previous (reg_get t b status) i
  pub status_fits : reg_get t' b status < 2 ^ xlen a
  pub others :
      (b' : Bank) (r : TrapReg) → is_served_reg b b' r ≡ false → reg_get t' b' r ≡ reg_get t b' r

module _ (a : Arch) (t : TrapRegs) (serving previous : PrivilegeLevel)
    (is_interrupt cause_nr curr_pc tval_nr : ℕ) {b : Bank}
    (has_regs : get_priv_regs serving ≡ some b) (fits : reg_get t b status < 2 ^ xlen a) where
  -- The final registers.
  abbrev served : TrapRegs
  served =
      let t1 =
        reg_set t b epc (if is_interrupt == 0 then sub_word (xlen a) curr_pc 4 else curr_pc) in
      let t2 =
        reg_set t1 b cause (bit_or (wrap (xlen a) (is_interrupt * 2 ^ (xlen a - 1))) cause_nr) in
      let st = save_previous a serving previous (reg_get t b status) in
      let t3 = reg_set t2 b status (stack_enable a (level_number serving) st) in
      reg_set t3 b tval tval_nr

  served-eq :
      trap_serve_interrupt a t serving previous is_interrupt cause_nr curr_pc tval_nr
      ≡ some (served, reg_get t b tvec)
  unfolding trap_serve_interrupt
  served-eq = ground arith

  -- For a level that has registers and a status register that fits a word, serving a trap returns
  -- the level's vector. The exception PC is the current one, four less for an exception; the cause
  -- carries the interrupt flag; xIE is cleared, xPIE holds the old xIE, MPP or SPP the previous
  -- level, and every other status digit and every other trap register is unchanged.
  pub trap_serve_interrupt_lem :
      (t' : TrapRegs) × (trap_serve_interrupt a t serving previous is_interrupt cause_nr curr_pc
          tval_nr
        ≡ some (t', reg_get t b tvec))
      × IsServed a t serving previous b is_interrupt cause_nr curr_pc tval_nr t'
  trap_serve_interrupt_lem = (
    served,
    served-eq,
    record {
      epc_is = ground arith;
      cause_is = ground arith;
      tval_is = ground arith;
      status_digits =
          λ i. ground (arith, test_bit-served a (reg_get t b status) serving previous i fits);
      status_fits = ground (arith, served-lt a (reg_get t b status) serving previous fits);
      others = λ b' r h. ground arith;
    },
  )

-- The levels that MPP or SPP can hold for a trap served at `serving`.
pub data CanReturnTo : PrivilegeLevel → PrivilegeLevel → Type 0 where
  machine_user : CanReturnTo machine_mode user_mode
  machine_supervisor : CanReturnTo machine_mode supervisor_mode
  machine_machine : CanReturnTo machine_mode machine_mode
  supervisor_user : CanReturnTo supervisor_mode user_mode
  supervisor_supervisor : CanReturnTo supervisor_mode supervisor_mode
  user_user : CanReturnTo user_mode user_mode

level-lt_four :
    {serving previous : PrivilegeLevel} → CanReturnTo serving previous → level_number previous < 4
level-lt_four machine_user = omega arith
level-lt_four machine_supervisor = omega arith
level-lt_four machine_machine = omega arith
level-lt_four supervisor_user = omega arith
level-lt_four supervisor_supervisor = omega arith
level-lt_four user_user = omega arith

level-lt_two :
    {previous : PrivilegeLevel} → CanReturnTo supervisor_mode previous → level_number previous < 2
level-lt_two supervisor_user = omega arith
level-lt_two supervisor_supervisor = omega arith

rank_level :
    {serving previous : PrivilegeLevel}
    → CanReturnTo serving previous
    → level_of_rank (level_number previous + 1) ≡ previous
rank_level machine_user = refl
rank_level machine_supervisor = refl
rank_level machine_machine = refl
rank_level supervisor_user = refl
rank_level supervisor_supervisor = refl
rank_level user_user = refl

-- The field read back is the level that was saved, if the field is wide enough for it.
saved_previous-digits :
    (a : Arch) (serving previous : PrivilegeLevel) (st st' i : ℕ)
    → CanReturnTo serving previous
    → ((i : ℕ) → test_bit st' i ≡ served_bit serving previous st i)
    → test_bit (saved_previous a serving st') i ≡ test_bit (level_number previous) i
saved_previous-digits a machine_mode previous st st' i c digits = ground (
  arith,
  xlen_bounds a,
  digits (11 + i),
  test_bit-extract (xlen a) st' 11 2 i,
  level-lt_four c,
  test_bit_above (level_number previous) 2 i,
)
saved_previous-digits a supervisor_mode previous st st' i c digits = ground (
  arith,
  xlen_bounds a,
  digits (8 + i),
  test_bit-extract (xlen a) st' 8 1 i,
  level-lt_two c,
  test_bit_above (level_number previous) 1 i,
)
saved_previous-digits a user_mode previous st st' i user_user digits = refl
saved_previous-digits a priv_level_unknown previous st st' i c digits = elim c [ ]
saved_previous-digits a reserved_mode previous st st' i c digits = elim c [ ]

pub saved_previous-served :
    (a : Arch) (serving previous : PrivilegeLevel) (st st' : ℕ)
    → CanReturnTo serving previous
    → ((i : ℕ) → test_bit st' i ≡ served_bit serving previous st i)
    → level_of_rank (saved_previous a serving st' + 1) ≡ previous
saved_previous-served a serving previous st st' c digits =
    rw
      (test_bit_ext (saved_previous a serving st') (level_number previous)
        (λ i. saved_previous-digits a serving previous st st' i c digits))
      (rank_level c)

-- Digit `i` of the status register after a trap at `serving` was taken and left again.
abbrev pub returned_bit : PrivilegeLevel → PrivilegeLevel → ℕ → ℕ → Bool
returned_bit serving previous st i =
    if i == 4 + level_number serving
    then false
    else if in_previous_field serving i
    then test_bit (level_number previous) (i - previous_field_start serving)
    else test_bit st i

module _ (a : Arch) (t : TrapRegs) (serving previous : PrivilegeLevel)
    (is_interrupt cause_nr curr_pc tval_nr : ℕ) {b : Bank}
    (has_regs : get_priv_regs serving ≡ some b) (fits : reg_get t b status < 2 ^ xlen a)
    (can_return : CanReturnTo serving previous) where
  -- Leaving a trap right after it was served gives back the privilege level that it came from,
  -- if MPP or SPP can hold that level, and a status register in which xIE is as it was before the
  -- trap, xPIE is clear, the saved field still holds the level, and all else is as before.
  pub restore-serve :
      (t' t'' : TrapRegs) × (trap_serve_interrupt a t serving previous is_interrupt cause_nr curr_pc
          tval_nr
        ≡ some (t', reg_get t b tvec))
      × (trap_restore_irq_settings a t' serving ≡ some (t'', previous))
      × ((i : ℕ)
          → test_bit (reg_get t'' b status) i
            ≡ returned_bit serving previous (reg_get t b status) i)
  unfolding trap_restore_irq_settings
  restore-serve =
      let (t', returns, is) =
        trap_serve_interrupt_lem a t serving previous is_interrupt cause_nr curr_pc tval_nr has_regs
          fits in
      let st' = reg_get t' b status in
      let left = unstack_enable a (level_number serving) st' in
      (
        t',
        reg_set t' b status left,
        returns,
        ground (
          arith,
          saved_previous-served a serving previous (reg_get t b status) st' can_return
              is.status_digits,
        ),
        λ i. ground (
          arith,
          test_bit-unstack_enable a st' (level_number serving) i is.status_fits,
          is.status_digits i,
          is.status_digits (4 + level_number serving),
        ),
      )
