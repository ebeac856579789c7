-- ===== src/Trap/Alias.antt =====
-- Which trap registers the three levels share (the pointer tables of src/core/trap/trap.c).
use riscv_em.Base.{ℕ, ◌≡◌, Bool, true, false, ◌&&◌, ◌||◌, ◌==◌, if◌then◌else◌, arith}
use riscv_em.Trap.Regs.{
  TrapRegs, TrapReg, status, isa, edeleg, ideleg, ie, tvec, counteren, scratch, epc, cause, tval,
  ip, Bank, m_bank, s_bank, u_bank, reg_get, reg_set,
}

-- The enumeration's value of a register.
abbrev pub reg_number : TrapReg → ℕ
reg_number status = 0
reg_number isa = 1
reg_number edeleg = 2
reg_number ideleg = 3
reg_number ie = 4
reg_number tvec = 5
reg_number counteren = 6
reg_number scratch = 7
reg_number epc = 8
reg_number cause = 9
reg_number tval = 10
reg_number ip = 11

-- The registers of which there is one for all levels.
abbrev pub is_shared : TrapReg → Bool
is_shared status = true
is_shared ie = true
is_shared ip = true
is_shared _ = false

abbrev pub same_bank : Bank → Bank → Bool
same_bank m_bank m_bank = true
same_bank s_bank s_bank = true
same_bank u_bank u_bank = true
same_bank _ _ = false

-- A write of one register through one level's table is seen in exactly the register of the same
-- name, through the same table, or through any table if the register is status, ie or ip.
pub reg_get-reg_set :
    (t : TrapRegs) (b b' : Bank) (r r' : TrapReg) (v : ℕ)
    → reg_get (reg_set t b r v) b' r' ≡ (
        if reg_number r == reg_number r' && (is_shared r || same_bank b b')
        then v
        else reg_get t b' r')
reg_get-reg_set t m_bank m_bank status r' v = ground arith
reg_get-reg_set t b b' r r' v = ground arith
