-- ===== src/Trap/Irq.antt =====
-- Interrupts and exceptions (src/core/trap/trap.c). An operation that may use the null pointer of
-- `get_priv_regs` returns `none` there.
use riscv_em.Base.{
  ℕ, zero, suc, ◌+◌, ◌-◌, ◌*◌, ◌/◌, ◌^◌, bit_and, bit_or, ◌||◌, Option, none, some, ltb, leb, ◌==◌,
  if◌then◌else◌,
}
use riscv_em.Base.Words.{wrap, sub_word}
use riscv_em.Types.{
  Arch, xlen, PrivilegeLevel, priv_level_unknown, user_mode, supervisor_mode, reserved_mode,
  machine_mode, rank, level_number, priv_level_max,
}
use riscv_em.Helper.{check_bit, clear_bit, assign_bit, assign_value_within_reg, extract}
use riscv_em.Trap.Regs.{
  TrapRegs, status, edeleg, ideleg, ie, tvec, epc, cause, tval, ip, Bank, m_bank, get_priv_regs,
  reg_get, reg_set,
}

-- Bits of the status register.
abbrev pub upie_bit : ℕ
upie_bit = 4

abbrev pub spp_bit : ℕ
spp_bit = 8

abbrev pub mpp_bit : ℕ
mpp_bit = 11

-- `trap_cause_interrupt`, the causes that the platform raises.
abbrev pub machine_swi : ℕ
machine_swi = 3

abbrev pub machine_ti : ℕ
machine_ti = 7

abbrev pub super_exti : ℕ
super_exti = 9

abbrev pub machine_exti : ℕ
machine_exti = 11

-- `trap_ret`
pub data TrapRet : Type 0 where
  trap_ret_none trap_ret_irq_pending : TrapRet

-- The null pointer's use ends the computation.
abbrev pub with_regs {ℓ} : {A : Type ℓ} → PrivilegeLevel → (Bank → Option A) → Option A
with_regs level f = elim (get_priv_regs level) [ none ↦ none | some b ↦ f b ]

module _ (a : Arch) where
  -- One guarded assignment of `trap_set_pending_bits`.
  unfoldable pub set_pending_bit : TrapRegs → ℕ → ℕ → TrapRegs
  set_pending_bit t irq value =
      if check_bit (reg_get t m_bank ie) irq
      then reg_set t m_bank ip (assign_bit (xlen a) (reg_get t m_bank ip) irq value)
      else t

  unfoldable pub trap_set_pending_bits : TrapRegs → ℕ → ℕ → ℕ → TrapRegs
  trap_set_pending_bits t ext_int tim_int sw_int =
      let t1 = set_pending_bit t machine_exti ext_int in
      let t2 = set_pending_bit t1 super_exti ext_int in
      let t3 = set_pending_bit t2 machine_ti tim_int in set_pending_bit t3 machine_swi sw_int

-- The level of a rank.
abbrev pub level_of_rank : ℕ → PrivilegeLevel
level_of_rank zero = priv_level_unknown
level_of_rank (suc zero) = user_mode
level_of_rank (suc (suc zero)) = supervisor_mode
level_of_rank (suc (suc (suc zero))) = reserved_mode
level_of_rank _ = machine_mode

-- The loop of `trap_check_interrupt_pending` over the delegation levels, at the level of rank
-- `n`, and the level at which it stops. At rank 0 the level is below every current level.
unfoldable pub delegation_loop : TrapRegs → PrivilegeLevel → ℕ → ℕ → PrivilegeLevel
delegation_loop t curr interrupt_bit zero = priv_level_unknown
delegation_loop t curr interrupt_bit (suc n) =
    let below = delegation_loop t curr interrupt_bit n in
    let level = level_of_rank (suc n) in
    if ltb (suc n) (rank curr) then level else elim (get_priv_regs level) [
      | none ↦ below
      | some b ↦ if bit_and (reg_get t b ideleg) interrupt_bit == 0 then level else below
    ]

unfoldable pub trap_check_interrupt_pending :
    TrapRegs → PrivilegeLevel → ℕ → Option (TrapRet × PrivilegeLevel)
trap_check_interrupt_pending t curr irq = with_regs curr λ x.
    let interrupt_bit = 2 ^ irq in
    let delegation_level = delegation_loop t curr interrupt_bit (rank machine_mode) in
    let own = 0xF0 / 2 ^ (priv_level_max - level_number curr) in
    let enabled = bit_and own (bit_and (reg_get t x status) 0xF) in
    if bit_and (reg_get t x ip) interrupt_bit == 0 || bit_and (reg_get t x ie) interrupt_bit == 0
    then some (trap_ret_none, machine_mode)
    else if bit_and enabled (0xF / 2 ^ (rank machine_mode - rank delegation_level)) == 0
    then some (trap_ret_none, machine_mode)
    else some (trap_ret_irq_pending, delegation_level)

-- The loop of `trap_check_exception_delegation`.
unfoldable pub exception_loop : TrapRegs → PrivilegeLevel → ℕ → ℕ → PrivilegeLevel
exception_loop t curr exception_bit zero = priv_level_unknown
exception_loop t curr exception_bit (suc n) =
    let below = exception_loop t curr exception_bit n in
    let level = level_of_rank (suc n) in
    elim (get_priv_regs level) [
      | none ↦ below
      | some b ↦
          if bit_and (reg_get t b edeleg) exception_bit == 0
          then level
          else if leb (suc n) (rank curr)
          then level
          else below
    ]

unfoldable pub trap_check_exception_delegation : TrapRegs → PrivilegeLevel → ℕ → PrivilegeLevel
trap_check_exception_delegation t curr cause_nr =
    exception_loop t curr (2 ^ cause_nr) (rank machine_mode)

module _ (a : Arch) where
  -- The previous privilege goes to MPP or SPP, by the level that serves the trap.
  abbrev pub save_previous : PrivilegeLevel → PrivilegeLevel → ℕ → ℕ
  save_previous machine_mode previous st =
      assign_value_within_reg (xlen a) st mpp_bit (level_number previous) 0x3
  save_previous supervisor_mode previous st =
      assign_value_within_reg (xlen a) st spp_bit (level_number previous) 0x1
  save_previous _ previous st = st

  -- xPIE takes xIE, and xIE is cleared.
  abbrev pub stack_enable : ℕ → ℕ → ℕ
  stack_enable level st =
      let enable = bit_and (st / 2 ^ level) 1 in
      clear_bit (xlen a) (assign_bit (xlen a) st (upie_bit + level) enable) level

  unfoldable pub trap_serve_interrupt :
      TrapRegs → PrivilegeLevel → PrivilegeLevel → ℕ → ℕ → ℕ → ℕ → Option (TrapRegs × ℕ)
  trap_serve_interrupt t serving previous is_interrupt cause_nr curr_pc tval_nr =
      with_regs serving λ x.
        let t1 =
          reg_set t x epc (if is_interrupt == 0 then sub_word (xlen a) curr_pc 4 else curr_pc) in
        let t2 =
          reg_set t1 x cause (bit_or (wrap (xlen a) (is_interrupt * 2 ^ (xlen a - 1))) cause_nr) in
        let t3 = reg_set t2 x status (save_previous serving previous (reg_get t2 x status)) in
        let t4 = reg_set t3 x status (stack_enable (level_number serving) (reg_get t3 x status)) in
        let t5 = reg_set t4 x tval tval_nr in some (t5, reg_get t5 x tvec)

  -- The level in MPP or SPP; the enumeration has no value beyond two bits.
  abbrev pub saved_previous : PrivilegeLevel → ℕ → ℕ
  saved_previous machine_mode st = extract (xlen a) st mpp_bit 2
  saved_previous supervisor_mode st = extract (xlen a) st spp_bit 1
  saved_previous _ st = 0

  -- xIE takes xPIE, and xPIE is cleared.
  abbrev pub unstack_enable : ℕ → ℕ → ℕ
  unstack_enable level st =
      let pie = bit_and (st / 2 ^ (upie_bit + level)) 1 in
      clear_bit (xlen a) (assign_bit (xlen a) st level pie) (upie_bit + level)

  unfoldable pub trap_restore_irq_settings :
      TrapRegs → PrivilegeLevel → Option (TrapRegs × PrivilegeLevel)
  trap_restore_irq_settings t serving = with_regs serving λ x.
      let st = reg_get t x status in
      let previous = level_of_rank (saved_previous serving st + 1) in
      some (reg_set t x status (unstack_enable (level_number serving) st), previous)
