-- ===== src/Core/Machine/Memory.antt =====
-- Memory on the bus is memory behind `mmu_checked_bus_access` of src/core/core.c, in machine mode.
use riscv_em.Base.{
  ℕ, ◌*◌, ◌^◌, ◌<◌, ◌≡◌, refl, sym, subst, ap, ◌∙◌, false, Option, none, some, arith,
}
use riscv_em.Base.Bits.{test_bit}
use riscv_em.Base.Words.{wrap_of_lt}
use riscv_em.Types.{
  Arch, xlen, RvRet, rv_ok, rv_err, PrivilegeLevel, machine_mode, BusAccessType, bus_read_access,
  bus_write_access,
}
use riscv_em.Helper.{check_bit, extract}
use riscv_em.Pmp.Check.{pmp_mem_check}
use riscv_em.Pmp.Priority.{IsAccess, unlocked, cfg_at, pmp_mem_check_none}
use riscv_em.Mmu.{BusAccess, mmu_virt_to_phys}
use riscv_em.Core.Hart.{IsMemory}
use riscv_em.Core.Machine.{
  Machine, mprv_bit, sum_bit, mxr_bit, m_status, with_mmu, check_mprv_override,
  pmp_checked_bus_access, after_translation, mmu_checked_bus_access, access_fault,
  prepare_sync_trap,
}

module _ (a : Arch) {β : Type 0} (IsReady : β → Type 0) where
  -- Machine mode with its own accesses, no locked entry in the protection, and a bus that is ready
  pub record IsOpen (s : Machine β) : Type 0 where
    pub in_machine_mode : s.curr_priv_mode ≡ machine_mode
    pub no_mprv : extract (xlen a) (m_status s) mprv_bit 1 ≡ 0
    pub no_lock : (j : ℕ) → j < 16 → test_bit (cfg_at s.csr.pmp j) 7 ≡ false
    pub bus_ready : IsReady s.bus

  abbrev pub IsOpenState : Option (Machine β) → Type 0
  IsOpenState none = ⊥
  IsOpenState (some s) = IsOpen s

-- What the machine's bus holds
abbrev pub bus_value : {β : Type 0} → (β → ℕ) → Option (Machine β) → ℕ
bus_value get none = 0
bus_value get (some s) = get s.bus

module _ (a : Arch) {β : Type 0} (bus_access : BusAccess β) (IsReady : β → Type 0) (address len : ℕ)
    (is_access : IsAccess a address len) where
  -- The answer of the bus, with the machine round it
  abbrev answered : Machine β → RvRet × ℕ × β → RvRet × ℕ × Option (Machine β)
  answered s (ret, out, bus) = (ret, out, some (record s { bus = bus }))

  abbrev through_pmp :
      (kind : BusAccessType) (value : ℕ) (s : Machine β)
      → Option RvRet
      → RvRet × ℕ × Option (Machine β)
  through_pmp kind value s none = (rv_err, value, none)
  through_pmp kind value s (some rv_err) =
      (rv_err, value, some (prepare_sync_trap s (access_fault kind) address))
  through_pmp kind value s (some rv_ok) =
      answered s (bus_access machine_mode kind address value len s.bus)

  pmp_checked-eq :
      (kind : BusAccessType) (value : ℕ) (s : Machine β)
      → pmp_checked_bus_access a bus_access machine_mode kind address value len (some s)
        ≡ through_pmp kind value s (pmp_mem_check a s.csr.pmp machine_mode address len kind)
  unfolding pmp_checked_bus_access
  pmp_checked-eq kind value s = by_result (pmp_mem_check a s.csr.pmp machine_mode address len kind)
    where
      by_result :
          (r : Option RvRet)
          → (let t : RvRet × ℕ × Option (Machine β) = elim r [
            | none ↦ (rv_err, value, none)
            | some rv_err ↦ (rv_err, value, some (prepare_sync_trap s (access_fault kind) address))
            | some rv_ok ↦
                let (ret, out, bus) = bus_access machine_mode kind address value len s.bus in
                (ret, out, some (record s { bus = bus }))
          ] in
              t)
            ≡ through_pmp kind value s r
      by_result none = refl
      by_result (some rv_err) = refl
      by_result (some rv_ok) = refl

  own_level :
      (kind : BusAccessType) (s : Machine β)
      → IsOpen a IsReady s
      → check_mprv_override a bus_access s kind ≡ machine_mode
  unfolding check_mprv_override
  own_level kind s ready = ground (arith, ready.in_machine_mode, ready.no_mprv)

  at_level :
      (kind : BusAccessType) (value : ℕ) (s : Machine β)
      → PrivilegeLevel
      → RvRet × ℕ × Option (Machine β)
  at_level kind value s level =
      let mxr = check_bit (m_status s) mxr_bit in
      let sum = check_bit (m_status s) sum_bit in
      let (ret, phys, mmu, m) =
        mmu_virt_to_phys a level kind mxr sum (pmp_checked_bus_access a bus_access) address
          s.csr.mmu (some s) in
      after_translation a bus_access level kind address value len ret phys (with_mmu mmu m)

  open_access :
      (kind : BusAccessType) (value : ℕ) (s : Machine β)
      → IsOpen a IsReady s
      → mmu_checked_bus_access a bus_access kind address value len (some s)
        ≡ answered s (bus_access machine_mode kind address value len s.bus)
  unfolding mmu_checked_bus_access at_level mmu_virt_to_phys after_translation
  open_access kind value s ready =
      ap (at_level kind value s) (own_level kind s ready)
      ∙ ap (λ x. pmp_checked_bus_access a bus_access machine_mode kind x value len (some s))
          (wrap_of_lt (xlen a) address (omega (arith, is_access.nonempty, is_access.no_wrap)))
      ∙ pmp_checked-eq kind value s
      ∙ ap (through_pmp kind value s) (
          pmp_mem_check_none a s.csr.pmp machine_mode address len kind is_access
            λ j h. unlocked (ready.no_lock j h))

  module _ (get : β → ℕ) (memory : IsMemory (bus_access machine_mode) IsReady get address len) where
    write_ready :
        (v : ℕ) (s : Machine β)
        → IsOpen a IsReady s
        → v < 2 ^ (8 * len)
        → let (ret, out, m') =
            mmu_checked_bus_access a bus_access bus_write_access address v len (some s) in
          IsOpenState a IsReady m' × (bus_value get m' ≡ v)
    write_ready v s ready small =
        let (still, held) = memory.write s.bus v ready.bus_ready small in
        subst
          (λ (r : RvRet × ℕ × Option (Machine β)).
            let (ret, out, m') = r in IsOpenState a IsReady m' × (bus_value get m' ≡ v))
          (sym (open_access bus_write_access v s ready))
          (
            record {
              in_machine_mode = ready.in_machine_mode;
              no_mprv = ready.no_mprv;
              no_lock = ready.no_lock;
              bus_ready = still;
            },
            held,
          )

    read_ready :
        (s : Machine β)
        → IsOpen a IsReady s
        → mmu_checked_bus_access a bus_access bus_read_access address 0 len (some s)
          ≡ (rv_ok, get s.bus, some s)
    read_ready s ready =
        open_access bus_read_access 0 s ready ∙ ap (answered s) (memory.read s.bus ready.bus_ready)

    -- If the bytes of an access that does not wrap are memory on the bus in machine mode, they are
    -- memory behind `mmu_checked_bus_access` in the states in machine mode that have MPRV clear and
    -- no locked entry of the protection: a read gives them and changes nothing, and a write replaces
    -- them and leads to such a state.
    pub mmu_checked_bus_access-IsMemory :
        IsMemory
          (mmu_checked_bus_access a bus_access)
          (IsOpenState a IsReady)
          (bus_value get)
          address
          len
    mmu_checked_bus_access-IsMemory = record {
      fits = λ m h. fits_value m h;
      read = λ m h. read_value m h;
      write = λ m v h small. write_value m v h small;
    }
      where
        fits_value :
            (m : Option (Machine β)) → IsOpenState a IsReady m → bus_value get m < 2 ^ (8 * len)
        fits_value none ready = elim ready [ ]
        fits_value (some s) ready = memory.fits s.bus ready.bus_ready

        read_value :
            (m : Option (Machine β))
            → IsOpenState a IsReady m
            → mmu_checked_bus_access a bus_access bus_read_access address 0 len m
              ≡ (rv_ok, bus_value get m, m)
        read_value none ready = elim ready [ ]
        read_value (some s) ready = read_ready s ready

        write_value :
            (m : Option (Machine β)) (v : ℕ)
            → IsOpenState a IsReady m
            → v < 2 ^ (8 * len)
            → let (ret, out, m') =
                mmu_checked_bus_access a bus_access bus_write_access address v len m in
              IsOpenState a IsReady m' × (bus_value get m' ≡ v)
        write_value none v ready small = elim ready [ ]
        write_value (some s) v ready small = write_ready v s ready small
