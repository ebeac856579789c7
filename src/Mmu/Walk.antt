-- ===== src/Mmu/Walk.antt =====
-- The loop of `mmu_virt_to_phys` in src/core/mmu/mmu.c: the walk over the levels of the tables.
use riscv_em.Base.{
  ℕ, zero, suc, ◌+◌, ◌*◌, ◌/◌, ◌%◌, ◌^◌, Bool, true, not, ◌&&◌, ◌||◌, if◌then◌else◌, bit_and, ◌≡◌,
  refl, sym, subst, ap, ◌∙◌, ◌⊎◌, inl, inr, arith,
}
use riscv_em.Base.Bits.{test_bit, test_bit-bit_and, test_bit-mod}
use riscv_em.Base.Words.{wrap}
use riscv_em.Types.{Arch, xlen, xlen_bytes, rv_ok, PrivilegeLevel, BusAccessType, bus_read_access}
use riscv_em.Helper.Laws.{mask-eq-mod, nibble_zero, bit_and-lt}
use riscv_em.Mmu.{BusAccess, Walked, walk_fault, found, has, walk, is_bad_entry, vpn}
use riscv_em.Mmu.Table.{
  IsLeaf, IsPointer, entry_address, table_of, Leads, leaf, down, flag, page_bits,
}

-- The flag `MMU_PAGE_READ` or `MMU_PAGE_EXEC`
some_flag : (pte : ℕ) → has (pte % 256) 0xA ≡ test_bit pte 1 || test_bit pte 3
some_flag pte = ground (
  arith,
  nibble_zero (bit_and (pte % 256) 10) (bit_and-lt 4 (pte % 256) 10 (omega arith)),
  test_bit-bit_and (pte % 256) 10 0,
  test_bit-bit_and (pte % 256) 10 1,
  test_bit-bit_and (pte % 256) 10 2,
  test_bit-bit_and (pte % 256) 10 3,
  test_bit-mod pte 8 1,
  test_bit-mod pte 8 3,
)

bad_entry :
    (pte : ℕ)
    → is_bad_entry (pte % 256) ≡ not (test_bit pte 0) || not (test_bit pte 1) && test_bit pte 2
unfolding is_bad_entry
bad_entry pte =
    ground (arith, flag pte 0 (omega arith), flag pte 1 (omega arith), flag pte 2 (omega arith))

-- What an entry is, from the tests of the code.
entry_cases : (pte : ℕ) → (is_bad_entry (pte % 256) ≡ true) ⊎ IsLeaf pte ⊎ IsPointer pte
entry_cases pte = ground (arith, bad_entry pte, some_flag pte)

same_vpn : (virt i : ℕ) → vpn virt i ≡ virt / 2 ^ page_bits i % 1024
same_vpn virt zero = mask-eq-mod (virt / 2 ^ 12) 10
same_vpn virt (suc i) = mask-eq-mod (virt / 2 ^ 22) 10

module _ {σ : Type 0} (a : Arch) (bus_access : BusAccess σ) (priv : PrivilegeLevel)
    (kind : BusAccessType) (mxr sum : Bool) (read : ℕ → ℕ) (virt : ℕ) (m : σ) where
  -- The bus gives the entry at an address, and changes nothing.
  abbrev pub ReadsEntry : ℕ → Type 0
  ReadsEntry address =
      (value : ℕ)
      → bus_access priv bus_read_access address value (xlen_bytes a) m ≡ (rv_ok, read address, m)

  -- It does so for the entries that a walk over `n` levels from the table at `base` meets.
  abbrev pub ReadsTables : (n base : ℕ) → Type 0
  ReadsTables zero base = Unit
  ReadsTables (suc n) base =
      let entry = read (entry_address a virt base n) in
      ReadsEntry (entry_address a virt base n)
      × (IsPointer entry → ReadsTables n (table_of a entry))

  same_entry : (base i : ℕ) → wrap (xlen a) (base + vpn virt i * 4) ≡ entry_address a virt base i
  same_entry base i = rw (same_vpn virt i)

  -- The rest of the walk after an entry
  after_entry : (i entry : ℕ) → Walked σ
  after_entry i entry =
      if is_bad_entry (entry % 256)
      then walk_fault m
      else if has (entry % 256) 0xA
      then found i entry (entry % 256) m
      else walk a priv kind mxr sum bus_access virt i (table_of a entry) entry m

  walk-suc :
      (i base value : ℕ)
      → ReadsEntry (entry_address a virt base i)
      → walk a priv kind mxr sum bus_access virt (suc i) base value m
        ≡ after_entry i (read (entry_address a virt base i))
  unfolding walk after_entry
  walk-suc i base value reads = rw (same_entry base i, reads _)

  after_leaf : (i pte : ℕ) → IsLeaf pte → after_entry i pte ≡ found i pte (pte % 256) m
  unfolding after_entry
  after_leaf i pte h = ground (arith, bad_entry pte, some_flag pte)

  after_pointer :
      (i pte : ℕ)
      → IsPointer pte
      → after_entry i pte ≡ walk a priv kind mxr sum bus_access virt i (table_of a pte) pte m
  unfolding after_entry
  after_pointer i pte h = ground (arith, bad_entry pte, some_flag pte)

  -- The loop ends at a fault, or at the leaf that the tables lead to.
  pub walk_cases :
      (n base value : ℕ)
      → ReadsTables n base
      → (walk a priv kind mxr sum bus_access virt n base value m ≡ walk_fault m)
        ⊎ ((i pte : ℕ) × (walk a priv kind mxr sum bus_access virt n base value m
              ≡ found i pte (pte % 256) m)
            × Leads a read virt n base i pte)
  unfolding walk after_entry
  walk_cases zero base value reads = inl refl
  walk_cases (suc n) base value (here, below) =
      let entry = read (entry_address a virt base n) in
      let first = walk-suc n base value here in
      elim (entry_cases entry) [
        | inl bad ↦ inl (ground (arith, first, bad))
        | inr (inl is_leaf) ↦ inr (n, entry, first ∙ after_leaf n entry is_leaf, leaf refl is_leaf)
        | inr (inr pointer) ↦ elim (walk_cases n (table_of a entry) entry (below pointer)) [
          | inl fault ↦ inl (first ∙ after_pointer n entry pointer ∙ fault)
          | inr (i, pte, ends, leads) ↦
              inr (i, pte, first ∙ after_pointer n entry pointer ∙ ends, down refl pointer leads)
        ]
      ]

  -- The loop ends at every leaf that the tables lead to.
  pub walk_of_Leads :
      {n base i pte : ℕ} (value : ℕ)
      → Leads a read virt n base i pte
      → ReadsTables n base
      → walk a priv kind mxr sum bus_access virt n base value m ≡ found i pte (pte % 256) m
  walk_of_Leads {base = base} {i = i} {pte = pte} value (leaf e is_leaf) (here, below) =
      walk-suc i base value here ∙ ap (after_entry i) e ∙ after_leaf i pte is_leaf
  walk_of_Leads value (down {n = n} {base = base} {entry = entry} e pointer leads) (here, below) =
      walk-suc n base value here
      ∙ ap (after_entry n) e
      ∙ after_pointer n entry pointer
      ∙ walk_of_Leads entry leads
          (subst (λ t. ReadsTables n (table_of a t)) e (below (subst IsPointer (sym e) pointer)))
