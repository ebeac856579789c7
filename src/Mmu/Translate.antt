-- ===== src/Mmu/Translate.antt =====
-- `mmu_virt_to_phys` of src/core/mmu/mmu.c against the page tables, for a bus that reads memory.
use riscv_em.Base.{
  ℕ, suc, ◌*◌, ◌/◌, ◌%◌, ◌^◌, Bool, true, false, ◌==◌, ◌≡◌, ◌≢◌, sym, ap, ap₂, ◌∙◌, ◌⊎◌, inl, inr,
  arith, Bool-cases,
}
use riscv_em.Base.Words.{wrap}
use riscv_em.Types.{Arch, rv32, rv64, xlen, PrivilegeLevel, BusAccessType}
use riscv_em.Helper.{extract}
use riscv_em.Helper.Laws.{extract-eq-mod, mask-eq-mod}
use riscv_em.Mmu.{
  BusAccess, Walked, walk_fault, found, walk, Mmu, MmuRet, mmu_ok, mmu_page_fault, is_mmu_machine,
  mmu_virt_to_phys, satp_mode_bit, satp_mode_nr_bits, check_leaf, finish, remember_pc,
}
use riscv_em.Mmu.Table.{Leads, Grants, page_address}
use riscv_em.Mmu.Leaf.{check_leaf_lem, Grants-iff, all_tests}
use riscv_em.Mmu.Walk.{ReadsTables, walk_cases, walk_of_Leads}

true_ne_false : ¬ (true ≡ false)
true_ne_false e = ground (arith, e)

-- One more than the level where a walk ends, or 0 for a fault; and the entry
abbrev level_of : {σ : Type 0} → Walked σ → ℕ
level_of (walk_fault _) = 0
level_of (found i _ _ _) = suc i

abbrev entry_of : {σ : Type 0} → Walked σ → ℕ
entry_of (walk_fault _) = 0
entry_of (found _ pte _ _) = pte

not_found : {σ : Type 0} {i pte flags : ℕ} {m n : σ} → ¬ (walk_fault m ≡ found i pte flags n)
not_found e = omega (arith, ap level_of e)

-- Addresses are translated: not in machine mode, and with a mode in `satp`.
pub record IsPaging (a : Arch) (mmu : Mmu) (priv : PrivilegeLevel) : Type 0 where
  pub not_machine : is_mmu_machine priv ≡ false
  pub has_mode : mmu.satp_reg / 2 ^ satp_mode_bit a % 2 ^ satp_mode_nr_bits a ≢ 0

-- The address of the first table
abbrev pub root_table : Arch → Mmu → ℕ
root_table a mmu = wrap (xlen a) (mmu.satp_reg % 2 ^ 22 * 4096)

mode_set :
    (a : Arch) (mmu : Mmu)
    → mmu.satp_reg / 2 ^ satp_mode_bit a % 2 ^ satp_mode_nr_bits a ≢ 0
    → (extract (xlen a) mmu.satp_reg (satp_mode_bit a) (satp_mode_nr_bits a) == 0) ≡ false
mode_set rv32 mmu h = ground (arith, extract-eq-mod 32 mmu.satp_reg 31 1 (omega arith))
mode_set rv64 mmu h = ground (arith, extract-eq-mod 64 mmu.satp_reg 60 4 (omega arith))

module _ {σ : Type 0} (a : Arch) (bus_access : BusAccess σ) (priv : PrivilegeLevel)
    (kind : BusAccessType) (mxr sum : Bool) (read : ℕ → ℕ) (virt : ℕ) (m : σ) where
  module _ (mmu : Mmu) (paging : IsPaging a mmu priv)
      (reads : ReadsTables a bus_access priv kind mxr sum read virt m 2 (root_table a mmu)) where
    abbrev after_walk : Walked σ → MmuRet × ℕ × Mmu × σ
    after_walk (walk_fault m) = (mmu_page_fault, 0, mmu, m)
    after_walk (found i pte flags m) =
        finish a priv kind mxr sum bus_access virt mmu m
          (check_leaf a priv kind mxr sum virt i pte flags)

    mmu_virt_to_phys-walk :
        mmu_virt_to_phys a priv kind mxr sum bus_access virt mmu m
        ≡ after_walk (walk a priv kind mxr sum bus_access virt 2 (root_table a mmu) 0 m)
    unfolding mmu_virt_to_phys
    mmu_virt_to_phys-walk =
        rw (paging.not_machine, mode_set a mmu paging.has_mode, mask-eq-mod mmu.satp_reg 22)

    -- The leaf that the walk finds is the only one.
    only_leaf :
        {i pte : ℕ}
        → walk a priv kind mxr sum bus_access virt 2 (root_table a mmu) 0 m
          ≡ found i pte (pte % 256) m
        → {j entry : ℕ} → Leads a read virt 2 (root_table a mmu) j entry
        → (i ≡ j) × (pte ≡ entry)
    only_leaf ends leads =
        let same =
          sym ends ∙ walk_of_Leads a bus_access priv kind mxr sum read virt m 0 leads reads in
        (omega (arith, ap level_of same), ap entry_of same)

    -- With paging on, below machine mode, and where the bus gives each entry of the tables that the
    -- walk meets and changes nothing: either no leaf that grants the access is reached through the page
    -- tables, and there is a page fault that changes nothing, or one is reached and granted, and the
    -- address in its page is the answer, remembered for an instruction fetch. The address has 34 bits
    -- on RV64, and on RV32 only its low 32 bits, against the comment in the function.
    pub mmu_virt_to_phys_lem :
        ((mmu_virt_to_phys a priv kind mxr sum bus_access virt mmu m ≡ (mmu_page_fault, 0, mmu, m))
          × ¬ (
              (i pte : ℕ) × Leads a read virt 2 (root_table a mmu) i pte
              × Grants priv kind mxr sum i pte))
        ⊎ ((i pte : ℕ) × Leads a read virt 2 (root_table a mmu) i pte
            × Grants priv kind mxr sum i pte
            × (mmu_virt_to_phys a priv kind mxr sum bus_access virt mmu m ≡ (
              mmu_ok,
              page_address a pte virt i,
              remember_pc a priv kind mxr sum bus_access virt mmu (page_address a pte virt i),
              m,
            )))
    mmu_virt_to_phys_lem =
        elim (walk_cases a bus_access priv kind mxr sum read virt m 2 (root_table a mmu) 0 reads) [
          | inl fault ↦ inl (
            mmu_virt_to_phys-walk ∙ ap after_walk fault,
            λ (i, pte, leads, _). not_found (
                sym fault ∙ walk_of_Leads a bus_access priv kind mxr sum read virt m 0 leads reads),
          )
          | inr (i, pte, ends, leads) ↦
              let answer =
                mmu_virt_to_phys-walk
                ∙ ap after_walk ends
                ∙ ap (finish a priv kind mxr sum bus_access virt mmu m)
                    (check_leaf_lem a priv kind mxr sum virt i pte) in
              elim (Bool-cases (all_tests a priv kind mxr sum virt i pte)) [
                | inl granted ↦ inr (
                  i,
                  pte,
                  leads,
                  (Grants-iff a priv kind mxr sum virt i pte).1 granted,
                  answer ∙ rw granted,
                )
                | inr refused ↦ inl (
                  answer ∙ rw refused,
                  λ (j, entry, others, grants).
                      let (ei, ep) = only_leaf ends others in
                      let test = (Grants-iff a priv kind mxr sum virt j entry).0 grants in
                      true_ne_false (
                        sym test
                        ∙ ap₂ (λ (k e : ℕ). all_tests a priv kind mxr sum virt k e) (sym ei)
                            (sym ep)
                        ∙ refused),
                )
              ]
        ]
