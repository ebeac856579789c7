-- ===== src/Trap/Pending.antt =====
-- What `trap_set_pending_bits` of src/core/trap/trap.c does to each pending bit.
use riscv_em.Base.{ℕ, ◌^◌, ◌<◌, ◌≡◌, Bool, ◌&&◌, ◌||◌, ◌==◌, if◌then◌else◌, arith}
use riscv_em.Base.Bits.{test_bit}
use riscv_em.Types.{Arch, xlen, xlen_bounds}
use riscv_em.Helper.Laws.{check_bit-eq-test_bit, test_bit-assign_bit, assign_bit-lt}
use riscv_em.Trap.Regs.{TrapRegs, ie, ip, m_bank, reg_get, reg_set}
use riscv_em.Trap.Irq.{set_pending_bit, trap_set_pending_bits}

abbrev pending : TrapRegs → ℕ
pending t = reg_get t m_bank ip

abbrev enabled : TrapRegs → ℕ
enabled t = reg_get t m_bank ie

-- `t'` is `t` with other pending bits.
record OnlyPending (a : Arch) (t t' : TrapRegs) : Type 0 where
  frame : t' ≡ reg_set t m_bank ip (pending t')
  fits : pending t' < 2 ^ xlen a

set_pending_bit-digit :
    (a : Arch) (t : TrapRegs) (irq v i : ℕ)
    → pending t < 2 ^ xlen a
    → irq < 32
    → test_bit (pending (set_pending_bit a t irq v)) i
      ≡ (if i == irq && test_bit (enabled t) irq then test_bit v 0 else test_bit (pending t) i)
unfolding set_pending_bit
set_pending_bit-digit a t irq v i hp hi = ground (
  arith,
  check_bit-eq-test_bit (enabled t) irq,
  xlen_bounds a,
  test_bit-assign_bit (xlen a) (pending t) irq v i,
)

set_pending_bit-frame :
    (a : Arch) (t : TrapRegs) (irq v : ℕ)
    → pending t < 2 ^ xlen a
    → OnlyPending a t (set_pending_bit a t irq v)
unfolding set_pending_bit
set_pending_bit-frame a t irq v hp = ground (arith, assign_bit-lt (xlen a) (pending t) irq v)

-- The value that `trap_set_pending_bits` leaves in pending bit `i`.
abbrev pub pending_bit : (ie_word ip_word ext_int tim_int sw_int i : ℕ) → Bool
pending_bit ie_word ip_word ext_int tim_int sw_int i =
    if (i == 11 || i == 9) && test_bit ie_word i
    then test_bit ext_int 0
    else if i == 7 && test_bit ie_word 7
    then test_bit tim_int 0
    else if i == 3 && test_bit ie_word 3
    then test_bit sw_int 0
    else test_bit ip_word i

module _ (a : Arch) (t : TrapRegs) (ext_int tim_int sw_int : ℕ)
    (fits : reg_get t m_bank ip < 2 ^ xlen a) where
  abbrev result : TrapRegs
  result = trap_set_pending_bits a t ext_int tim_int sw_int

  -- If the pending register fits a word, bits 11 and 9 take the external interrupt, bit 7 the timer
  -- and bit 3 the software interrupt, each only where its enable bit is set; every other pending
  -- bit and every other trap register stays as it was.
  pub trap_set_pending_bits_lem :
      ((i : ℕ)
        → test_bit (reg_get result m_bank ip) i
          ≡ pending_bit (reg_get t m_bank ie) (reg_get t m_bank ip) ext_int tim_int sw_int i)
      × (result ≡ reg_set t m_bank ip (reg_get result m_bank ip))
  unfolding trap_set_pending_bits
  trap_set_pending_bits_lem =
      let t1 = set_pending_bit a t 11 ext_int in
      let t2 = set_pending_bit a t1 9 ext_int in
      let t3 = set_pending_bit a t2 7 tim_int in
      let f1 = set_pending_bit-frame a t 11 ext_int fits in
      let f2 = set_pending_bit-frame a t1 9 ext_int f1.fits in
      let f3 = set_pending_bit-frame a t2 7 tim_int f2.fits in
      let f4 = set_pending_bit-frame a t3 3 sw_int f3.fits in
      (
        λ i. ground (
          arith,
          set_pending_bit-digit a t 11 ext_int i fits,
          set_pending_bit-digit a t1 9 ext_int i f1.fits,
          set_pending_bit-digit a t2 7 tim_int i f2.fits,
          set_pending_bit-digit a t3 3 sw_int i f3.fits,
          f1.frame,
          f2.frame,
          f3.frame,
        ),
        ground (arith, f1.frame, f2.frame, f3.frame, f4.frame),
      )
