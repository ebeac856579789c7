-- ===== src/Trap/Regs.antt =====
-- The trap registers (src/core/trap/trap.h), the pointer tables that `trap_init` fills, and the
-- CSR callbacks that go through them (src/core/trap/trap.c).
use riscv_em.Base.{ℕ, Option, none, some}
use riscv_em.Types.{RvRet, rv_ok, PrivilegeLevel, user_mode, supervisor_mode, machine_mode}

-- `trap_internal_regs`
pub data TrapReg : Type 0 where
  status isa edeleg ideleg ie tvec counteren scratch epc cause tval ip : TrapReg

-- `trap_shared_td`
pub record TrapShared : Type 0 where
  pub status_reg : ℕ
  pub ie_reg : ℕ
  pub ip_reg : ℕ

-- `trap_setup_td`
pub record TrapSetup : Type 0 where
  pub isa_reg : ℕ
  pub edeleg_reg : ℕ
  pub ideleg_reg : ℕ
  pub tvec_reg : ℕ
  pub counteren_reg : ℕ

-- `trap_handling_td`
pub record TrapHandling : Type 0 where
  pub scratch_reg : ℕ
  pub epc_reg : ℕ
  pub cause_reg : ℕ
  pub tval_reg : ℕ

-- `trap_regs_td`
pub record TrapRegs : Type 0 where
  pub shared : TrapShared
  pub m_setup : TrapSetup
  pub m_handling : TrapHandling
  pub s_setup : TrapSetup
  pub s_handling : TrapHandling
  pub u_setup : TrapSetup
  pub u_handling : TrapHandling

-- The three tables `m`, `s` and `u` of `trap_td`.
pub data Bank : Type 0 where
  m_bank s_bank u_bank : Bank

-- An address inside `regs_data`.
pub data Ptr : Type 0 where
  status_ptr ie_ptr ip_ptr : Ptr
  isa_ptr edeleg_ptr ideleg_ptr tvec_ptr counteren_ptr : Bank → Ptr
  scratch_ptr epc_ptr cause_ptr tval_ptr : Bank → Ptr

-- The tables after `trap_init`: the status, enable and pending registers are one for all levels.
abbrev pub trap_init : Bank → TrapReg → Ptr
trap_init b status = status_ptr
trap_init b isa = isa_ptr b
trap_init b edeleg = edeleg_ptr b
trap_init b ideleg = ideleg_ptr b
trap_init b ie = ie_ptr
trap_init b tvec = tvec_ptr b
trap_init b counteren = counteren_ptr b
trap_init b scratch = scratch_ptr b
trap_init b epc = epc_ptr b
trap_init b cause = cause_ptr b
trap_init b tval = tval_ptr b
trap_init b ip = ip_ptr

-- `get_priv_regs`: `none` is the null pointer of its default case.
abbrev pub get_priv_regs : PrivilegeLevel → Option Bank
get_priv_regs machine_mode = some m_bank
get_priv_regs supervisor_mode = some s_bank
get_priv_regs user_mode = some u_bank
get_priv_regs _ = none

abbrev setup_of : TrapRegs → Bank → TrapSetup
setup_of t m_bank = t.m_setup
setup_of t s_bank = t.s_setup
setup_of t u_bank = t.u_setup

abbrev handling_of : TrapRegs → Bank → TrapHandling
handling_of t m_bank = t.m_handling
handling_of t s_bank = t.s_handling
handling_of t u_bank = t.u_handling

abbrev with_setup : TrapRegs → Bank → TrapSetup → TrapRegs
with_setup t m_bank r = record t { m_setup = r }
with_setup t s_bank r = record t { s_setup = r }
with_setup t u_bank r = record t { u_setup = r }

abbrev with_handling : TrapRegs → Bank → TrapHandling → TrapRegs
with_handling t m_bank r = record t { m_handling = r }
with_handling t s_bank r = record t { s_handling = r }
with_handling t u_bank r = record t { u_handling = r }

-- A read through a pointer.
abbrev pub load : TrapRegs → Ptr → ℕ
load t status_ptr = t.shared.status_reg
load t ie_ptr = t.shared.ie_reg
load t ip_ptr = t.shared.ip_reg
load t (isa_ptr b) = (setup_of t b).isa_reg
load t (edeleg_ptr b) = (setup_of t b).edeleg_reg
load t (ideleg_ptr b) = (setup_of t b).ideleg_reg
load t (tvec_ptr b) = (setup_of t b).tvec_reg
load t (counteren_ptr b) = (setup_of t b).counteren_reg
load t (scratch_ptr b) = (handling_of t b).scratch_reg
load t (epc_ptr b) = (handling_of t b).epc_reg
load t (cause_ptr b) = (handling_of t b).cause_reg
load t (tval_ptr b) = (handling_of t b).tval_reg

-- A write through a pointer.
abbrev pub store : TrapRegs → Ptr → ℕ → TrapRegs
store t status_ptr v = let r = t.shared in record t { shared = record r { status_reg = v } }
store t ie_ptr v = let r = t.shared in record t { shared = record r { ie_reg = v } }
store t ip_ptr v = let r = t.shared in record t { shared = record r { ip_reg = v } }
store t (isa_ptr b) v = let r = setup_of t b in with_setup t b (record r { isa_reg = v })
store t (edeleg_ptr b) v = let r = setup_of t b in with_setup t b (record r { edeleg_reg = v })
store t (ideleg_ptr b) v = let r = setup_of t b in with_setup t b (record r { ideleg_reg = v })
store t (tvec_ptr b) v = let r = setup_of t b in with_setup t b (record r { tvec_reg = v })
store t (counteren_ptr b) v =
    let r = setup_of t b in with_setup t b (record r { counteren_reg = v })
store t (scratch_ptr b) v =
    let r = handling_of t b in with_handling t b (record r { scratch_reg = v })
store t (epc_ptr b) v = let r = handling_of t b in with_handling t b (record r { epc_reg = v })
store t (cause_ptr b) v = let r = handling_of t b in with_handling t b (record r { cause_reg = v })
store t (tval_ptr b) v = let r = handling_of t b in with_handling t b (record r { tval_reg = v })

-- `*x->regs[r]`, read and assigned, with `x` one of the three tables.
abbrev pub reg_get : TrapRegs → Bank → TrapReg → ℕ
reg_get t b r = load t (trap_init b r)

abbrev pub reg_set : TrapRegs → Bank → TrapReg → ℕ → TrapRegs
reg_set t b r v = store t (trap_init b r) v

-- The CSR callbacks. The register index is one that `rv_core_init_csr_regs` stores.
unfoldable pub trap_m_write : TrapRegs → TrapReg → ℕ → RvRet × TrapRegs
trap_m_write t r csr_val = (rv_ok, reg_set t m_bank r csr_val)

unfoldable pub trap_m_read : TrapRegs → TrapReg → RvRet × ℕ
trap_m_read t r = (rv_ok, reg_get t m_bank r)

unfoldable pub trap_s_write : TrapRegs → TrapReg → ℕ → RvRet × TrapRegs
trap_s_write t r csr_val = (rv_ok, reg_set t s_bank r csr_val)

unfoldable pub trap_s_read : TrapRegs → TrapReg → RvRet × ℕ
trap_s_read t r = (rv_ok, reg_get t s_bank r)

unfoldable pub trap_u_write : TrapRegs → TrapReg → ℕ → RvRet × TrapRegs
trap_u_write t r csr_val = (rv_ok, reg_set t u_bank r csr_val)

unfoldable pub trap_u_read : TrapRegs → TrapReg → RvRet × ℕ
trap_u_read t r = (rv_ok, reg_get t u_bank r)
