-- ===== src/Core/Machine/Trapping.antt =====
-- The pending trap of src/core/core.c under an access: one that waits is not replaced, and an access
-- that fails leaves one.
use riscv_em.Base.{
  ℕ, Bool, true, false, not, Option, none, some, ◌≡◌, refl, ◌∙◌, sym, subst, ap, if◌then◌else◌,
  arith,
}
use riscv_em.Base.Words.{wrap}
use riscv_em.Types.{Arch, xlen, RvRet, rv_ok, rv_err, PrivilegeLevel, BusAccessType}
use riscv_em.Helper.{check_bit}
use riscv_em.Pmp.Check.{pmp_mem_check}
use riscv_em.Mmu.{Mmu, BusAccess, MmuRet, mmu_ok, mmu_page_fault, mmu_virt_to_phys}
use riscv_em.Mmu.Invariant.{mmu_virt_to_phys-IsKept}
use riscv_em.Core.Machine.{
  Machine, prepare_sync_trap, pmp_checked_bus_access, after_translation, mmu_checked_bus_access,
  with_mmu, access_fault, page_fault, check_mprv_override, m_status, mxr_bit, sum_bit,
}

-- The trap of `s` still waits in `t`.
pub record SameTrap {β : Type 0} (s t : Machine β) : Type 0 where
  pub waits : t.sync_trap_pending ≡ true
  pub same_cause : t.sync_trap_cause ≡ s.sync_trap_cause
  pub same_tval : t.sync_trap_tval ≡ s.sync_trap_tval

-- A missing machine is undefined behaviour.
abbrev pub StillTrapped : {β : Type 0} → Machine β → Option (Machine β) → Type 0
StillTrapped s none = Unit
StillTrapped s (some t) = SameTrap s t

abbrev pub IsTrapped : {β : Type 0} → Option (Machine β) → Type 0
IsTrapped none = Unit
IsTrapped (some t) = t.sync_trap_pending ≡ true

abbrev is_ok : RvRet → Bool
is_ok rv_ok = true
is_ok rv_err = false

ok_ne_err : ¬ (rv_ok ≡ rv_err)
ok_ne_err e = ground (arith, ap is_ok e)

module _ {β : Type 0} where
  prepare_sync_trap-SameTrap :
      (s t : Machine β) (cause tval : ℕ)
      → SameTrap s t
      → SameTrap s (prepare_sync_trap t cause tval)
  unfolding prepare_sync_trap
  prepare_sync_trap-SameTrap s t cause tval k =
      subst
        (λ b. SameTrap s (
          if not b
          then record t { sync_trap_pending = true; sync_trap_cause = cause; sync_trap_tval = tval }
          else t))
        (sym k.waits) k

  prepare_sync_trap-pending :
      (t : Machine β) (cause tval : ℕ) → (prepare_sync_trap t cause tval).sync_trap_pending ≡ true
  unfolding prepare_sync_trap
  prepare_sync_trap-pending t cause tval = by_pending t.sync_trap_pending refl
    where
      by_pending :
          (b : Bool)
          → t.sync_trap_pending ≡ b
          → (let u : Machine β =
                if not b
                then record t {
                  sync_trap_pending = true;
                  sync_trap_cause = cause;
                  sync_trap_tval = tval;
                }
                else t in
              u.sync_trap_pending)
            ≡ true
      by_pending true e = e
      by_pending false e = refl

  module _ (a : Arch) (bus_access : BusAccess β) where
    pmp_checked-kept :
        (s : Machine β) (level : PrivilegeLevel) (kind : BusAccessType) (addr value len : ℕ)
        (m : Option (Machine β))
        → StillTrapped s m
        → StillTrapped s (pmp_checked_bus_access a bus_access level kind addr value len m).2
    unfolding pmp_checked_bus_access
    pmp_checked-kept s level kind addr value len none k = tt
    pmp_checked-kept s level kind addr value len (some t) k =
        after (pmp_mem_check a t.csr.pmp level addr len kind)
      where
        after :
            (r : Option RvRet)
            → StillTrapped s (
                let reply : RvRet × ℕ × Option (Machine β) = elim r [
                  | none ↦ (rv_err, value, none)
                  | some rv_err ↦
                      (rv_err, value, some (prepare_sync_trap t (access_fault kind) addr))
                  | some rv_ok ↦
                      let (ret, out, bus) = bus_access level kind addr value len t.bus in
                      (ret, out, some (record t { bus = bus }))
                ] in
                reply.2)
        after none = tt
        after (some rv_err) = prepare_sync_trap-SameTrap s t (access_fault kind) addr k
        after (some rv_ok) = record {
          waits = k.waits;
          same_cause = k.same_cause;
          same_tval = k.same_tval;
        }

    with_mmu-kept :
        (s : Machine β) (mmu : Mmu) (m : Option (Machine β))
        → StillTrapped s m
        → StillTrapped s (with_mmu mmu m)
    with_mmu-kept s mmu none k = tt
    with_mmu-kept s mmu (some t) k = record {
      waits = k.waits;
      same_cause = k.same_cause;
      same_tval = k.same_tval;
    }

    after_translation-kept :
        (s : Machine β) (level : PrivilegeLevel) (kind : BusAccessType) (addr value len : ℕ)
        (ret : MmuRet) (phys : ℕ) (m : Option (Machine β))
        → StillTrapped s m
        → StillTrapped s (after_translation a bus_access level kind addr value len ret phys m).2
    unfolding after_translation
    after_translation-kept s level kind addr value len mmu_page_fault phys none k = tt
    after_translation-kept s level kind addr value len mmu_page_fault phys (some t) k =
        prepare_sync_trap-SameTrap s t (page_fault kind) addr k
    after_translation-kept s level kind addr value len mmu_ok phys m k =
        pmp_checked-kept s level kind (wrap (xlen a) phys) value len m k

    -- A trap that waits when an access starts still waits after it, with its cause and its value.
    pub mmu_checked_bus_access-kept :
        (s : Machine β) (kind : BusAccessType) (addr value len : ℕ)
        → s.sync_trap_pending ≡ true
        → StillTrapped s (mmu_checked_bus_access a bus_access kind addr value len (some s)).2
    unfolding mmu_checked_bus_access
    mmu_checked_bus_access-kept s kind addr value len pending =
        let level = check_mprv_override a bus_access s kind in
        let mxr = check_bit (m_status s) mxr_bit in
        let sum = check_bit (m_status s) sum_bit in
        let reply =
          mmu_virt_to_phys a level kind mxr sum (pmp_checked_bus_access a bus_access) addr s.csr.mmu
            (some s) in
        after_translation-kept s level kind addr value len reply.0 reply.1
          (with_mmu reply.2 reply.3)
          (with_mmu-kept s reply.2 reply.3 (
            mmu_virt_to_phys-IsKept (StillTrapped s) a (pmp_checked_bus_access a bus_access)
              (pmp_checked-kept s) level kind mxr sum addr s.csr.mmu (some s)
              (record { waits = pending; same_cause = refl; same_tval = refl })))

    module _
        (never_fails : (level : PrivilegeLevel) (kind : BusAccessType) (addr value len : ℕ) (b : β)
          → (bus_access level kind addr value len b).0 ≡ rv_ok) where
      pmp_checked-traps :
          (level : PrivilegeLevel) (kind : BusAccessType) (addr value len : ℕ)
          (m : Option (Machine β))
          → (pmp_checked_bus_access a bus_access level kind addr value len m).0 ≡ rv_err
          → IsTrapped (pmp_checked_bus_access a bus_access level kind addr value len m).2
      unfolding pmp_checked_bus_access
      pmp_checked-traps level kind addr value len none failed = tt
      pmp_checked-traps level kind addr value len (some t) failed =
          after (pmp_mem_check a t.csr.pmp level addr len kind) failed
        where
          reply : Option RvRet → RvRet × ℕ × Option (Machine β)
          reply r = elim r [
            | none ↦ (rv_err, value, none)
            | some rv_err ↦ (rv_err, value, some (prepare_sync_trap t (access_fault kind) addr))
            | some rv_ok ↦
                let (ret, out, bus) = bus_access level kind addr value len t.bus in
                (ret, out, some (record t { bus = bus }))
          ]

          after : (r : Option RvRet) → (reply r).0 ≡ rv_err → IsTrapped (reply r).2
          after none e = tt
          after (some rv_err) e = prepare_sync_trap-pending t (access_fault kind) addr
          after (some rv_ok) e =
              absurd (ok_ne_err (sym (never_fails level kind addr value len t.bus) ∙ e))

      after_translation-traps :
          (level : PrivilegeLevel) (kind : BusAccessType) (addr value len : ℕ) (ret : MmuRet)
          (phys : ℕ) (m : Option (Machine β))
          → (after_translation a bus_access level kind addr value len ret phys m).0 ≡ rv_err
          → IsTrapped (after_translation a bus_access level kind addr value len ret phys m).2
      unfolding after_translation
      after_translation-traps level kind addr value len mmu_page_fault phys none failed = tt
      after_translation-traps level kind addr value len mmu_page_fault phys (some t) failed =
          prepare_sync_trap-pending t (page_fault kind) addr
      after_translation-traps level kind addr value len mmu_ok phys m failed =
          pmp_checked-traps level kind (wrap (xlen a) phys) value len m failed

      -- On a bus that never fails, an access that fails leaves a trap that waits.
      pub mmu_checked_bus_access-traps :
          (s : Machine β) (kind : BusAccessType) (addr value len : ℕ)
          → (mmu_checked_bus_access a bus_access kind addr value len (some s)).0 ≡ rv_err
          → IsTrapped (mmu_checked_bus_access a bus_access kind addr value len (some s)).2
      unfolding mmu_checked_bus_access
      mmu_checked_bus_access-traps s kind addr value len failed =
          after_translation-traps _ kind addr value len _ _ _ failed
