-- ===== src/Mmu/Invariant.antt =====
-- What the bus keeps, `mmu_virt_to_phys` of src/core/mmu/mmu.c keeps.
use riscv_em.Base.{
  ℕ, zero, suc, ◌*◌, ◌/◌, ◌%◌, ◌^◌, ◌+◌, Bool, true, false, ◌||◌, ◌==◌, if◌then◌else◌, Option, none,
  some, bit_and,
}
use riscv_em.Base.Words.{wrap}
use riscv_em.Types.{Arch, xlen, xlen_bytes, PrivilegeLevel, BusAccessType, bus_read_access}
use riscv_em.Helper.{extract}
use riscv_em.Mmu.{
  BusAccess, Walked, walk_fault, found, has, walk, is_bad_entry, vpn, Mmu, MmuRet, mmu_ok,
  mmu_page_fault, is_mmu_machine, mmu_virt_to_phys, satp_mode_bit, satp_mode_nr_bits, check_leaf,
  finish,
}

abbrev pub state_of : {σ : Type 0} → Walked σ → σ
state_of (walk_fault m) = m
state_of (found _ _ _ m) = m

module _ {σ : Type 0} (IsKept : σ → Type 0) (a : Arch) (bus_access : BusAccess σ)
    (keeps : (level : PrivilegeLevel) (kind : BusAccessType) (address value len : ℕ) (m : σ)
      → IsKept m
      → IsKept (bus_access level kind address value len m).2)
    (priv : PrivilegeLevel) (kind : BusAccessType) (mxr sum : Bool) (virt : ℕ) where
  by_tests :
      (b c : Bool) (i pte flags : ℕ) (m : σ) (w : Walked σ)
      → IsKept m
      → IsKept (state_of w)
      → IsKept (state_of (if b then walk_fault m else if c then found i pte flags m else w))
  by_tests true c i pte flags m w km kw = km
  by_tests false true i pte flags m w km kw = km
  by_tests false false i pte flags m w km kw = kw

  walk-IsKept :
      (n base pte : ℕ) (m : σ)
      → IsKept m
      → IsKept (state_of (walk a priv kind mxr sum bus_access virt n base pte m))
  unfolding walk
  walk-IsKept zero base pte m k = k
  walk-IsKept (suc i) base pte m k =
      let reply =
        bus_access priv bus_read_access (wrap (xlen a) (base + vpn virt i * 4)) pte (xlen_bytes a)
          m in
      let kept =
        keeps priv bus_read_access (wrap (xlen a) (base + vpn virt i * 4)) pte (xlen_bytes a) m k in
      by_tests (is_bad_entry (reply.1 % 256)) (has (reply.1 % 256) 0xA) i reply.1 (reply.1 % 256)
        reply.2 _ kept
        (walk-IsKept i (wrap (xlen a) (reply.1 / 2 ^ 10 * 4096)) reply.1 reply.2 kept)

  finish-IsKept :
      (mmu : Mmu) (m : σ) (r : Option ℕ)
      → IsKept m
      → IsKept (finish a priv kind mxr sum bus_access virt mmu m r).3
  finish-IsKept mmu m none k = k
  finish-IsKept mmu m (some phys) k = k

  walked-IsKept :
      (mmu : Mmu) (w : Walked σ)
      → IsKept (state_of w)
      → IsKept (
          let r : MmuRet × ℕ × Mmu × σ = elim w [
            | walk_fault m ↦ (mmu_page_fault, 0, mmu, m)
            | found i pte flags m ↦
                finish a priv kind mxr sum bus_access virt mmu m
                  (check_leaf a priv kind mxr sum virt i pte flags)
          ] in
          r.3)
  walked-IsKept mmu (walk_fault m) k = k
  walked-IsKept mmu (found i pte flags m) k = finish-IsKept mmu m _ k

  if-IsKept :
      (b : Bool) (r s : MmuRet × ℕ × Mmu × σ)
      → IsKept r.3
      → IsKept s.3
      → IsKept (if b then r else s).3
  if-IsKept true r s kr ks = kr
  if-IsKept false r s kr ks = ks

  pub mmu_virt_to_phys-IsKept :
      (mmu : Mmu) (m : σ)
      → IsKept m
      → IsKept (mmu_virt_to_phys a priv kind mxr sum bus_access virt mmu m).3
  unfolding mmu_virt_to_phys
  mmu_virt_to_phys-IsKept mmu m k =
      let mode = extract (xlen a) mmu.satp_reg (satp_mode_bit a) (satp_mode_nr_bits a) in
      let base = wrap (xlen a) (bit_and mmu.satp_reg 0x3FFFFF * 4096) in
      if-IsKept (is_mmu_machine priv || mode == 0) (mmu_ok, virt, mmu, m) _ k
        (walked-IsKept mmu (walk a priv kind mxr sum bus_access virt 2 base 0 m)
          (walk-IsKept 2 base 0 m k))
