-- ===== src/Mmu/Table.antt =====
-- The page tables that `mmu_virt_to_phys` of src/core/mmu/mmu.c walks, described on their own: which
-- entry is reached, what it grants, and where a page lies.
use riscv_em.Base.{
  ℕ, zero, suc, ◌+◌, ◌-◌, ◌*◌, ◌/◌, ◌%◌, ◌^◌, ◌<◌, Bool, true, false, not, ◌==◌, bit_and, bit_or,
  ◌≡◌, sym, ap, ◌∙◌, ◌⊎◌, arith,
}
use riscv_em.Base.Bits.{test_bit, test_bit-mod, add-bit_or}
use riscv_em.Base.Words.{wrap}
use riscv_em.Types.{
  Arch, rv32, rv64, xlen, PrivilegeLevel, user_mode, supervisor_mode, BusAccessType,
  bus_read_access, bus_write_access, bus_instr_access,
}
use riscv_em.Helper.Laws.{bit_and-pow_zero, mask-eq-mod}
use riscv_em.Mmu.{ppn, phys_addr_translation}

-- A page of level 0 has 2 ^ 12 bytes, and one of level 1 has 2 ^ 22.
abbrev pub page_bits : ℕ → ℕ
page_bits zero = 12
page_bits (suc i) = 22

-- The width of the addresses that come out
abbrev pub phys_bits : Arch → ℕ
phys_bits rv32 = 32
phys_bits rv64 = 34

-- A valid entry that maps a page: readable, or executable and not writable.
abbrev pub IsLeaf : ℕ → Type 0
IsLeaf pte =
    (test_bit pte 0 ≡ true)
    × ((test_bit pte 1 ≡ true) ⊎ ((test_bit pte 2 ≡ false) × (test_bit pte 3 ≡ true)))

-- A valid entry that points to the next table.
abbrev pub IsPointer : ℕ → Type 0
IsPointer pte =
    (test_bit pte 0 ≡ true)
    × (test_bit pte 1 ≡ false)
    × (test_bit pte 2 ≡ false)
    × (test_bit pte 3 ≡ false)

module _ (a : Arch) where
  -- The address in a table at `base` of the entry of level `i` for a virtual address
  abbrev pub entry_address : ℕ → ℕ → ℕ → ℕ
  entry_address virt base i = wrap (xlen a) (base + virt / 2 ^ page_bits i % 1024 * 4)

  abbrev pub table_of : ℕ → ℕ
  table_of pte = wrap (xlen a) (pte / 1024 * 4096)

  -- With `n` levels from the table at `base` on, the leaf reached and its level.
  pub data Leads (read : ℕ → ℕ) (virt : ℕ) : (n base i pte : ℕ) → Type 0 where
    leaf :
        {i base pte : ℕ}
        → read (entry_address virt base i) ≡ pte
        → IsLeaf pte
        → Leads read virt (suc i) base i pte
    down :
        {n base i pte entry : ℕ}
        → read (entry_address virt base n) ≡ entry
        → IsPointer entry
        → Leads read virt n (table_of entry) i pte
        → Leads read virt (suc n) base i pte

  -- The address of a byte in the page that a leaf of level `i` maps
  abbrev pub page_address : ℕ → ℕ → ℕ → ℕ
  page_address pte virt i =
      wrap (phys_bits a) (pte / 2 ^ (page_bits i - 2) * 2 ^ page_bits i) + virt % 2 ^ page_bits i

-- What a leaf must say of an access of a kind, with MXR.
abbrev pub IsKindGranted : BusAccessType → Bool → ℕ → Type 0
IsKindGranted bus_read_access mxr pte =
    (test_bit pte 1 ≡ true) ⊎ ((mxr ≡ true) × (test_bit pte 3 ≡ true))
IsKindGranted bus_write_access mxr pte = test_bit pte 2 ≡ true
IsKindGranted bus_instr_access mxr pte = test_bit pte 3 ≡ true

-- The pages of a level: those for the user, or for the supervisor those that are not, or with SUM.
abbrev pub IsLevelGranted : PrivilegeLevel → Bool → ℕ → Type 0
IsLevelGranted user_mode sum pte = test_bit pte 4 ≡ true
IsLevelGranted supervisor_mode sum pte = (test_bit pte 4 ≡ false) ⊎ (sum ≡ true)
IsLevelGranted _ sum pte = Unit

-- A page that is written is marked dirty.
abbrev pub IsMarked : BusAccessType → ℕ → Type 0
IsMarked bus_write_access pte = (test_bit pte 6 ≡ true) × (test_bit pte 7 ≡ true)
IsMarked _ pte = test_bit pte 6 ≡ true

-- A large page starts at a multiple of its size.
abbrev pub IsAlignedPage : ℕ → ℕ → Type 0
IsAlignedPage zero pte = Unit
IsAlignedPage (suc i) pte = pte / 1024 % 1024 ≡ 0

pub record Grants (priv : PrivilegeLevel) (kind : BusAccessType) (mxr sum : Bool) (i pte : ℕ)
    : Type 0 where
  pub level_granted : IsLevelGranted priv sum pte
  pub kind_granted : IsKindGranted kind mxr pte
  pub aligned : IsAlignedPage i pte
  pub marked : IsMarked kind pte

-- The flags of an entry, digit by digit.
pub flag : (pte k : ℕ) → k < 8 → (bit_and (pte % 256) (2 ^ k) == 0) ≡ not (test_bit pte k)
flag pte k h = ground (arith, bit_and-pow_zero (pte % 256) k, test_bit-mod pte 8 k)

-- The pieces of an address do not overlap.
two_pieces : (x z : ℕ) → z < 2 ^ 22 → bit_or (x * 2 ^ 22) z ≡ x * 2 ^ 22 + z
two_pieces x z hz = add-bit_or 22 x z hz

three_pieces :
    (x y z : ℕ)
    → y < 2 ^ 10
    → z < 2 ^ 12
    → bit_or (bit_or (x * 2 ^ 22) (y * 2 ^ 12)) z ≡ x * 2 ^ 22 + y * 2 ^ 12 + z
three_pieces x y z hy hz =
    let upper : bit_or (x * 2 ^ 22) (y * 2 ^ 12) ≡ (x * 2 ^ 10 + y) * 2 ^ 12 =
      omega (arith, two_pieces x (y * 2 ^ 12) (omega arith)) in
    ap (λ (t : ℕ). bit_or t z) upper ∙ omega (arith, add-bit_or 12 (x * 2 ^ 10 + y) z hz)

-- The numbers in the array `ppn`, as remainders
upper_number :
    (a : Arch) (pte : ℕ)
    → wrap (xlen a) (ppn a pte 1 * 2 ^ 22) ≡ pte / 2 ^ 20 % 2 ^ (phys_bits a - 22) * 2 ^ 22
upper_number rv32 pte = omega (arith, mask-eq-mod (wrap 32 (pte * 4) / 2 ^ 22) 12)
upper_number rv64 pte = omega (arith, mask-eq-mod (wrap 64 (pte * 4) / 2 ^ 22) 12)

pub lower_number : (a : Arch) (pte : ℕ) → ppn a pte 0 ≡ pte / 2 ^ 10 % 2 ^ 10
lower_number rv32 pte = omega (arith, mask-eq-mod (wrap 32 (pte * 4) / 2 ^ 12) 10)
lower_number rv64 pte = omega (arith, mask-eq-mod (wrap 64 (pte * 4) / 2 ^ 12) 10)

same_page :
    (a : Arch) (pte virt i : ℕ)
    → page_address a pte virt i ≡ elim i [
      | zero ↦
          pte / 2 ^ 20 % 2 ^ (phys_bits a - 22) * 2 ^ 22
          + pte / 2 ^ 10 % 2 ^ 10 * 2 ^ 12
          + virt % 2 ^ 12
      | suc _ ↦ pte / 2 ^ 20 % 2 ^ (phys_bits a - 22) * 2 ^ 22 + virt % 2 ^ 22
    ]
same_page rv32 pte virt zero = omega arith
same_page rv32 pte virt (suc i) = omega arith
same_page rv64 pte virt zero = omega arith
same_page rv64 pte virt (suc i) = omega arith

pub page_lem :
    (a : Arch) (pte virt i : ℕ) → phys_addr_translation a pte virt i ≡ page_address a pte virt i
unfolding phys_addr_translation
page_lem a pte virt zero =
    rw (upper_number a pte, lower_number a pte, mask-eq-mod virt 12)
      (three_pieces _ _ _ (omega arith) (omega arith) ∙ sym (same_page a pte virt zero))
page_lem a pte virt (suc i) =
    rw (upper_number a pte, mask-eq-mod virt 22)
      (two_pieces _ _ (omega arith) ∙ sym (same_page a pte virt (suc i)))
