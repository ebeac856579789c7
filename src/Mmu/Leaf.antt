-- ===== src/Mmu/Leaf.antt =====
-- `check_leaf`, the end of `mmu_virt_to_phys` in src/core/mmu/mmu.c, against what a leaf grants.
use riscv_em.Base.{
  ℕ, zero, suc, ◌%◌, ◌^◌, ◌<◌, Bool, true, not, ◌&&◌, ◌||◌, ltb, ◌==◌, if◌then◌else◌, none, some,
  bit_and, bit_or, ◌≡◌, ◌≢◌, refl, ◌↔◌, ◌⊎◌, inl, inr, arith,
}
use riscv_em.Base.Bits.{test_bit, test_bit-bit_or, test_bit-pow}
use riscv_em.Types.{
  Arch, PrivilegeLevel, priv_level_unknown, user_mode, supervisor_mode, reserved_mode, machine_mode,
  BusAccessType, bus_read_access, bus_write_access, bus_instr_access,
}
use riscv_em.Helper.Laws.{bit_and-pow_zero}
use riscv_em.Mmu.{
  has, is_user, is_supervisor, is_write, access_type_to_mmu, ppn, mxr_flags, check_leaf,
}
use riscv_em.Mmu.Table.{
  IsKindGranted, IsLevelGranted, IsMarked, IsAlignedPage, Grants, page_address, page_lem, flag,
  lower_number,
}

-- The flags with `MMU_PAGE_READ` set
flag_or :
    (pte k : ℕ)
    → k < 8
    → (bit_and (bit_or (pte % 256) 2) (2 ^ k) == 0) ≡ not (test_bit pte k || (k == 1))
flag_or pte k h = ground (
  arith,
  bit_and-pow_zero (bit_or (pte % 256) 2) k,
  test_bit-bit_or (pte % 256) 2 k,
  test_bit-pow 1 k,
  bit_and-pow_zero (pte % 256) k,
  flag pte k h,
)

abbrev pub level_test : (priv : PrivilegeLevel) (sum : Bool) (pte : ℕ) → Bool
level_test priv sum pte =
    not (is_user priv && not (test_bit pte 4))
    && not (is_supervisor priv && test_bit pte 4 && not sum)

IsLevelGranted-iff :
    (priv : PrivilegeLevel) (sum : Bool) (pte : ℕ)
    → IsLevelGranted priv sum pte ↔ (level_test priv sum pte ≡ true)
IsLevelGranted-iff priv_level_unknown sum pte = ((λ _. refl), (λ _. tt))
IsLevelGranted-iff user_mode sum pte = ((λ h. ground arith), (λ h. ground arith))
IsLevelGranted-iff supervisor_mode sum pte = ((λ h. ground arith), (λ h. ground arith))
IsLevelGranted-iff reserved_mode sum pte = ((λ _. refl), (λ _. tt))
IsLevelGranted-iff machine_mode sum pte = ((λ _. refl), (λ _. tt))

mxr_cases :
    (kind : BusAccessType) (mxr : Bool) (flags : ℕ)
    → (mxr_flags kind mxr flags ≡ flags) ⊎ (mxr_flags kind mxr flags ≡ bit_or flags 2)
mxr_cases kind mxr flags = ground arith

-- The digits of the flags after MXR, but for that of reading
mxr_digit :
    (kind : BusAccessType) (mxr : Bool) (pte k : ℕ)
    → k < 8
    → k ≢ 1
    → (bit_and (mxr_flags kind mxr (pte % 256)) (2 ^ k) == 0) ≡ not (test_bit pte k)
mxr_digit kind mxr pte k h n = elim (mxr_cases kind mxr (pte % 256)) [
  | inl e ↦ rw e (flag pte k h)
  | inr e ↦ rw e (ground (arith, flag_or pte k h))
]

IsKindGranted-iff :
    (kind : BusAccessType) (mxr : Bool) (pte : ℕ)
    → IsKindGranted kind mxr pte
      ↔ (has (mxr_flags kind mxr (pte % 256)) (access_type_to_mmu kind) ≡ true)
IsKindGranted-iff bus_read_access mxr pte = (
  (λ h.
      ground
        (arith, flag pte 1 (omega arith), flag_or pte 1 (omega arith), flag pte 3 (omega arith))),
  (λ h.
      ground
        (arith, flag pte 1 (omega arith), flag_or pte 1 (omega arith), flag pte 3 (omega arith))),
)
IsKindGranted-iff bus_write_access mxr pte = (
  (λ h. ground (arith, mxr_digit bus_write_access mxr pte 2 (omega arith) (omega arith))),
  (λ h. ground (arith, mxr_digit bus_write_access mxr pte 2 (omega arith) (omega arith))),
)
IsKindGranted-iff bus_instr_access mxr pte = (
  (λ h. ground (arith, mxr_digit bus_instr_access mxr pte 3 (omega arith) (omega arith))),
  (λ h. ground (arith, mxr_digit bus_instr_access mxr pte 3 (omega arith) (omega arith))),
)

abbrev page_test : Arch → ℕ → ℕ → Bool
page_test a i pte = not (ltb 0 i && not (ppn a pte 0 == 0))

IsAlignedPage-iff : (a : Arch) (i pte : ℕ) → IsAlignedPage i pte ↔ (page_test a i pte ≡ true)
IsAlignedPage-iff a zero pte = ((λ h. refl), (λ h. tt))
IsAlignedPage-iff a (suc i) pte =
    ((λ h. ground (arith, lower_number a pte)), (λ h. ground (arith, lower_number a pte)))

abbrev pub mark_test : BusAccessType → ℕ → Bool
mark_test kind flags = not (not (has flags 64) || is_write kind && not (has flags 128))

IsMarked-iff :
    (kind : BusAccessType) (mxr : Bool) (pte : ℕ)
    → IsMarked kind pte ↔ (mark_test kind (mxr_flags kind mxr (pte % 256)) ≡ true)
IsMarked-iff kind mxr pte =
    let six : has (mxr_flags kind mxr (pte % 256)) 64 ≡ test_bit pte 6 =
      ground (arith, mxr_digit kind mxr pte 6 (omega arith) (omega arith)) in
    let seven : has (mxr_flags kind mxr (pte % 256)) 128 ≡ test_bit pte 7 =
      ground (arith, mxr_digit kind mxr pte 7 (omega arith) (omega arith)) in
    by_kind kind (has (mxr_flags kind mxr (pte % 256)) 64)
      (has (mxr_flags kind mxr (pte % 256)) 128) six seven
  where
    by_kind :
        (kind : BusAccessType) (f g : Bool)
        → f ≡ test_bit pte 6
        → g ≡ test_bit pte 7
        → IsMarked kind pte ↔ (not (not f || is_write kind && not g) ≡ true)
    by_kind bus_read_access f g six seven = ((λ h. ground arith), (λ h. ground arith))
    by_kind bus_write_access f g six seven = ((λ h. ground arith), (λ h. ground arith))
    by_kind bus_instr_access f g six seven = ((λ h. ground arith), (λ h. ground arith))

all_true : {p q r s : Bool} → p ≡ true → q ≡ true → r ≡ true → s ≡ true → p && q && r && s ≡ true
all_true p q r s = ground arith

split_true :
    {p q r s : Bool} → p && q && r && s ≡ true → (p ≡ true) × (q ≡ true) × (r ≡ true) × (s ≡ true)
split_true h = ground arith

module _ (a : Arch) (priv : PrivilegeLevel) (kind : BusAccessType) (mxr sum : Bool)
    (virt i pte : ℕ) where
  abbrev pub all_tests : Bool
  all_tests =
      level_test priv sum pte
      && has (mxr_flags kind mxr (pte % 256)) (access_type_to_mmu kind)
      && page_test a i pte
      && mark_test kind (mxr_flags kind mxr (pte % 256))

  pub check_leaf_lem :
      check_leaf a priv kind mxr sum virt i pte (pte % 256)
      ≡ (if all_tests then some (page_address a pte virt i) else none)
  unfolding check_leaf
  check_leaf_lem = ground (arith, flag pte 4 (omega arith), page_lem a pte virt i)

  pub Grants-iff : Grants priv kind mxr sum i pte ↔ (all_tests ≡ true)
  Grants-iff = (
    (λ g.
        all_true ((IsLevelGranted-iff priv sum pte).0 g.level_granted)
          ((IsKindGranted-iff kind mxr pte).0 g.kind_granted)
          ((IsAlignedPage-iff a i pte).0 g.aligned) ((IsMarked-iff kind mxr pte).0 g.marked)),
    (λ h.
        let (e1, e2, e3, e4) = split_true h in
        record {
          level_granted = (IsLevelGranted-iff priv sum pte).1 e1;
          kind_granted = (IsKindGranted-iff kind mxr pte).1 e2;
          aligned = (IsAlignedPage-iff a i pte).1 e3;
          marked = (IsMarked-iff kind mxr pte).1 e4;
        }),
  )
