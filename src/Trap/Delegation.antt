-- ===== src/Trap/Delegation.antt =====
-- Which level serves an interrupt or an exception (src/core/trap/trap.c).
use riscv_em.Base.{
  ℕ, ◌-◌, ◌/◌, ◌^◌, ◌≤◌, ◌<◌, ◌≡◌, ◌≢◌, ◌∙◌, ◌⊎◌, ◌↔◌, Bool, true, false, not, ◌&&◌, ◌||◌, ◌==◌,
  ltb, leb, if◌then◌else◌, Option, some, bit_and, arith,
}
use riscv_em.Base.Bits.{test_bit, test_bit-bit_and}
use riscv_em.Types.{
  PrivilegeLevel, priv_level_unknown, user_mode, supervisor_mode, reserved_mode, machine_mode, rank,
  level_number,
}
use riscv_em.Helper.Laws.{bit_and-pow_zero, bit_and-lt, nibble_zero}
use riscv_em.Trap.Regs.{
  TrapRegs, status, edeleg, ideleg, ie, ip, Bank, m_bank, s_bank, u_bank, reg_get,
}
use riscv_em.Trap.Irq.{
  TrapRet, trap_ret_none, trap_ret_irq_pending, delegation_loop, trap_check_interrupt_pending,
  exception_loop, trap_check_exception_delegation,
}

-- The level whose registers a table holds.
abbrev pub bank_level : Bank → PrivilegeLevel
bank_level m_bank = machine_mode
bank_level s_bank = supervisor_mode
bank_level u_bank = user_mode

-- The first level of those from `curr` up that does not delegate, from the top down; the other
-- cases are where the loop leaves its range.
abbrev stops_at : PrivilegeLevel → (m s u : Bool) → PrivilegeLevel
stops_at machine_mode m s u = if m then reserved_mode else machine_mode
stops_at supervisor_mode m s u =
    if m then if s then user_mode else supervisor_mode else machine_mode
stops_at _ m s u =
    if m
    then if s then if u then priv_level_unknown else user_mode else supervisor_mode
    else machine_mode

delegation_loop_lem :
    (t : TrapRegs) (b : Bank) (irq : ℕ)
    → delegation_loop t (bank_level b) (2 ^ irq) 4
      ≡ stops_at
          (bank_level b)
          (test_bit (reg_get t m_bank ideleg) irq)
          (test_bit (reg_get t s_bank ideleg) irq)
          (test_bit (reg_get t u_bank ideleg) irq)
unfolding delegation_loop
delegation_loop_lem t b irq = ground (
  arith,
  bit_and-pow_zero (reg_get t m_bank ideleg) irq,
  bit_and-pow_zero (reg_get t s_bank ideleg) irq,
  bit_and-pow_zero (reg_get t u_bank ideleg) irq,
)

-- The masks of the code leave one digit for each level.
masked_digits :
    (own st served : ℕ)
    → served < 16
    → (bit_and (bit_and own (bit_and st 15)) served == 0)
      ≡ not (
          test_bit own 0 && test_bit st 0 && test_bit served 0
          || test_bit own 1 && test_bit st 1 && test_bit served 1
          || test_bit own 2 && test_bit st 2 && test_bit served 2
          || test_bit own 3 && test_bit st 3 && test_bit served 3)
masked_digits own st served h =
    nibble_zero _ (bit_and-lt 4 (bit_and own (bit_and st 15)) served h)
    ∙ simp test_bit-bit_and (ground arith)

-- An enable bit of a level from `low` to `high` is set in the status register.
abbrev pub enabled_between : ℕ → ℕ → ℕ → Bool
enabled_between st low high =
    leb low 0 && leb 0 high && test_bit st 0
    || leb low 1 && leb 1 high && test_bit st 1
    || leb low 2 && leb 2 high && test_bit st 2
    || leb low 3 && leb 3 high && test_bit st 3

masks_lem :
    (b : Bank) (level : PrivilegeLevel) (st : ℕ)
    → (bit_and
          (bit_and (0xF0 / 2 ^ (4 - level_number (bank_level b))) (bit_and st 0xF))
          (0xF / 2 ^ (4 - rank level))
        == 0)
      ≡ not (
          ltb 0 (rank level)
          && enabled_between st (level_number (bank_level b)) (level_number level))
masks_lem m_bank priv_level_unknown st = masked_digits 0x78 st 0 (omega arith) ∙ ground arith
masks_lem m_bank user_mode st = masked_digits 0x78 st 1 (omega arith) ∙ ground arith
masks_lem m_bank supervisor_mode st = masked_digits 0x78 st 3 (omega arith) ∙ ground arith
masks_lem m_bank reserved_mode st = masked_digits 0x78 st 7 (omega arith) ∙ ground arith
masks_lem m_bank machine_mode st = masked_digits 0x78 st 15 (omega arith) ∙ ground arith
masks_lem s_bank priv_level_unknown st = masked_digits 0x1E st 0 (omega arith) ∙ ground arith
masks_lem s_bank user_mode st = masked_digits 0x1E st 1 (omega arith) ∙ ground arith
masks_lem s_bank supervisor_mode st = masked_digits 0x1E st 3 (omega arith) ∙ ground arith
masks_lem s_bank reserved_mode st = masked_digits 0x1E st 7 (omega arith) ∙ ground arith
masks_lem s_bank machine_mode st = masked_digits 0x1E st 15 (omega arith) ∙ ground arith
masks_lem u_bank priv_level_unknown st = masked_digits 0x0F st 0 (omega arith) ∙ ground arith
masks_lem u_bank user_mode st = masked_digits 0x0F st 1 (omega arith) ∙ ground arith
masks_lem u_bank supervisor_mode st = masked_digits 0x0F st 3 (omega arith) ∙ ground arith
masks_lem u_bank reserved_mode st = masked_digits 0x0F st 7 (omega arith) ∙ ground arith
masks_lem u_bank machine_mode st = masked_digits 0x0F st 15 (omega arith) ∙ ground arith

-- An interrupt that is pending and enabled is served at `level`: no level above it keeps the
-- interrupt, it keeps it itself, and the enable bit of some level from the current one to it is set.
pub record IsServedAt (t : TrapRegs) (b : Bank) (irq : ℕ) (level : PrivilegeLevel) : Type 0 where
  pub pending : test_bit (reg_get t b ip) irq ≡ true
  pub enabled : test_bit (reg_get t b ie) irq ≡ true
  pub not_below : rank (bank_level b) ≤ rank level
  pub keeps : (c : Bank) → bank_level c ≡ level → test_bit (reg_get t c ideleg) irq ≡ false
  pub delegated :
      (c : Bank) → rank level < rank (bank_level c) → test_bit (reg_get t c ideleg) irq ≡ true
  pub implemented : level ≢ reserved_mode
  pub unmasked :
      enabled_between (reg_get t b status) (level_number (bank_level b)) (level_number level) ≡ true

-- The answer of the code, with the loop and the masks read.
answer : TrapRegs → Bank → ℕ → PrivilegeLevel → Option (TrapRet × PrivilegeLevel)
answer t b irq level =
    if test_bit (reg_get t b ip) irq
      && test_bit (reg_get t b ie) irq
      && ltb 0 (rank level)
      && enabled_between (reg_get t b status) (level_number (bank_level b)) (level_number level)
    then some (trap_ret_irq_pending, level)
    else some (trap_ret_none, machine_mode)

abbrev stop : TrapRegs → Bank → ℕ → PrivilegeLevel
stop t b irq =
    stops_at (bank_level b) (test_bit (reg_get t m_bank ideleg) irq)
      (test_bit (reg_get t s_bank ideleg) irq) (test_bit (reg_get t u_bank ideleg) irq)

answer_lem :
    (t : TrapRegs) (b : Bank) (irq : ℕ)
    → trap_check_interrupt_pending t (bank_level b) irq ≡ answer t b irq (stop t b irq)
unfolding trap_check_interrupt_pending answer
answer_lem t m_bank irq =
    rw (delegation_loop_lem t m_bank irq, bit_and-pow_zero, bit_and-pow_zero)
      (rw (masks_lem m_bank (stop t m_bank irq) (reg_get t m_bank status)) (ground arith))
answer_lem t s_bank irq =
    rw (delegation_loop_lem t s_bank irq, bit_and-pow_zero, bit_and-pow_zero)
      (rw (masks_lem s_bank (stop t s_bank irq) (reg_get t s_bank status)) (ground arith))
answer_lem t u_bank irq =
    rw (delegation_loop_lem t u_bank irq, bit_and-pow_zero, bit_and-pow_zero)
      (rw (masks_lem u_bank (stop t u_bank irq) (reg_get t u_bank status)) (ground arith))

served_of_answer :
    (t : TrapRegs) (b : Bank) (irq : ℕ) (level : PrivilegeLevel)
    → answer t b irq (stop t b irq) ≡ some (trap_ret_irq_pending, level)
    → IsServedAt t b irq level
unfolding answer
served_of_answer t b irq level h = record {
  pending = ground arith;
  enabled = ground arith;
  not_below = ground arith;
  keeps = λ c e. ground arith;
  delegated = λ c l. ground arith;
  implemented = λ e. ground arith;
  unmasked = ground arith;
}

answer_of_served :
    (t : TrapRegs) (b : Bank) (irq : ℕ) (level : PrivilegeLevel)
    → IsServedAt t b irq level
    → answer t b irq (stop t b irq) ≡ some (trap_ret_irq_pending, level)
unfolding answer
answer_of_served t b irq level s = ground (
  arith,
  s.keeps m_bank,
  s.keeps s_bank,
  s.keeps u_bank,
  s.delegated m_bank,
  s.delegated s_bank,
  s.delegated u_bank,
)

-- The interrupt is reported as pending for a level exactly when it is served there; in particular
-- never for a level below the current one. The current level is one that has registers.
pub trap_check_interrupt_pending_iff :
    (t : TrapRegs) (b : Bank) (irq : ℕ) (level : PrivilegeLevel)
    → (trap_check_interrupt_pending t (bank_level b) irq ≡ some (trap_ret_irq_pending, level))
      ↔ IsServedAt t b irq level
trap_check_interrupt_pending_iff t b irq level =
    rw (answer_lem t b irq) (served_of_answer t b irq level, answer_of_served t b irq level)

-- An exception at level `b` goes to `level`: it is not below, every level above it delegates the
-- exception, and it is the current level or keeps the exception.
pub record IsHandledAt (t : TrapRegs) (b : Bank) (cause_nr : ℕ) (level : PrivilegeLevel)
    : Type 0 where
  pub implemented : (c : Bank) × (bank_level c ≡ level)
  pub not_below : rank (bank_level b) ≤ rank level
  pub delegated :
      (c : Bank) → rank level < rank (bank_level c) → test_bit (reg_get t c edeleg) cause_nr ≡ true
  pub keeps :
      (c : Bank)
      → bank_level c ≡ level
      → (level ≡ bank_level b) ⊎ (test_bit (reg_get t c edeleg) cause_nr ≡ false)

abbrev handled_level : PrivilegeLevel → (m s : Bool) → PrivilegeLevel
handled_level machine_mode m s = machine_mode
handled_level supervisor_mode m s = if m then supervisor_mode else machine_mode
handled_level _ m s = if m then if s then user_mode else supervisor_mode else machine_mode

exception_loop_lem :
    (t : TrapRegs) (b : Bank) (cause_nr : ℕ)
    → trap_check_exception_delegation t (bank_level b) cause_nr
      ≡ handled_level
          (bank_level b)
          (test_bit (reg_get t m_bank edeleg) cause_nr)
          (test_bit (reg_get t s_bank edeleg) cause_nr)
unfolding trap_check_exception_delegation exception_loop
exception_loop_lem t b cause_nr = ground (
  arith,
  bit_and-pow_zero (reg_get t m_bank edeleg) cause_nr,
  bit_and-pow_zero (reg_get t s_bank edeleg) cause_nr,
  bit_and-pow_zero (reg_get t u_bank edeleg) cause_nr,
)

handled_bank : Bank → (m s : Bool) → Bank
handled_bank m_bank m s = m_bank
handled_bank s_bank m s = if m then s_bank else m_bank
handled_bank u_bank m s = if m then if s then u_bank else s_bank else m_bank

-- An exception is always handled by an implemented level, not below the current one: the lowest
-- to which the delegation bits of all levels above lead.
pub trap_check_exception_delegation_lem :
    (t : TrapRegs) (b : Bank) (cause_nr : ℕ)
    → IsHandledAt t b cause_nr (trap_check_exception_delegation t (bank_level b) cause_nr)
unfolding handled_bank
trap_check_exception_delegation_lem t b cause_nr =
    let m = test_bit (reg_get t m_bank edeleg) cause_nr in
    let s = test_bit (reg_get t s_bank edeleg) cause_nr in
    rw (exception_loop_lem t b cause_nr) (record {
      implemented = (handled_bank b m s, ground arith);
      not_below = ground arith;
      delegated = λ c l. ground arith;
      keeps = λ c e. ground arith;
    })
