-- ===== src/Pmp/Priority.antt =====
-- `pmp_mem_check` of src/core/pmp/pmp.c against the rule that the first entry to match decides.
use native.Mathlib.Nat.{mod-eq_of_lt}
use riscv_em.Base.{
  ℕ, zero, suc, ◌+◌, ◌-◌, ◌*◌, ◌/◌, ◌%◌, ◌^◌, ◌≤◌, ◌<◌, ◌≡◌, ◌≢◌, refl, ap, ◌∙◌, bit_and, Bool,
  true, false, not, ◌&&◌, ◌||◌, ◌==◌, ltb, leb, some, get_or, arith,
}
use riscv_em.Base.Words.{wrap}
use riscv_em.Base.Bits.{test_bit, test_bit-bit_and}
use native.Mathlib.Decide.{dec_lt}
use riscv_em.Types.{
  Arch, rv32, rv64, xlen, xlen_bytes, RvRet, PrivilegeLevel, BusAccessType, access_number,
  bus_read_access, bus_write_access, bus_instr_access,
}
use riscv_em.Helper.{addr_within}
use riscv_em.Helper.Laws.{check_bit-eq-test_bit, extract-eq-mod, bit_and-lt, nibble_zero}
use riscv_em.Pmp.Csr.{Pmp, is_machine}
use riscv_em.Pmp.Check.{
  Verdict, next, answer, to_ret, check_entry, entry_loop, reg_loop, pmp_mem_check,
}
use riscv_em.Pmp.Napot.{Covers, tor_first, tor, na4, napot, region_of_Covers}

module _ (a : Arch) (pmp : Pmp) (curr_priv : PrivilegeLevel) (addr len : ℕ)
    (access : BusAccessType) where
  abbrev entry : ℕ → Verdict
  entry = check_entry a pmp curr_priv addr len access

  abbrev entries : ℕ → ℕ → Verdict
  entries = entry_loop a pmp curr_priv addr len access

  abbrev regs : ℕ → ℕ → Verdict
  regs = reg_loop a pmp curr_priv addr len access

  entries_skip : (n c : ℕ) → ((j : ℕ) → c ≤ j → j < c + n → entry j ≡ next) → entries n c ≡ next
  unfolding entry_loop
  entries_skip zero c h = refl
  entries_skip (suc n) c h = ground (
    arith,
    h c (omega arith) (omega arith),
    entries_skip n (c + 1) (λ j l u. h j (omega arith) (omega arith)),
  )

  entries_hit :
      (n c k : ℕ) (r : RvRet)
      → ((j : ℕ) → c ≤ j → j < k → entry j ≡ next)
      → c ≤ k
      → k < c + n
      → entry k ≡ answer r
      → entries n c ≡ answer r
  unfolding entry_loop
  entries_hit zero c k r h l u e = absurd (omega arith)
  entries_hit (suc n) c k r h l u e = elim (dec_lt c k) [
    | yes before ↦ ground (
      arith,
      h c (omega arith) before,
      entries_hit n (c + 1) k r (λ j p q. h j (omega arith) q) (omega arith) (omega arith) e,
    )
    | no here ↦ (let same : c ≡ k = omega arith in rw same (ground arith))
  ]

  abbrev width : ℕ
  width = xlen_bytes a

  regs_skip :
      (n i : ℕ) → ((j : ℕ) → i * width ≤ j → j < (i + n) * width → entry j ≡ next) → regs n i ≡ next
  unfolding reg_loop
  regs_skip zero i h = refl
  regs_skip (suc n) i h = ground (
    arith,
    entries_skip width (i * width) (λ j l u. h j l (grind arith)),
    regs_skip n (i + 1) (λ j l u. h j (grind arith) (grind arith)),
  )

  regs_hit :
      (n i k : ℕ) (r : RvRet)
      → ((j : ℕ) → i * width ≤ j → j < k → entry j ≡ next)
      → i * width ≤ k
      → k < (i + n) * width
      → entry k ≡ answer r
      → regs n i ≡ answer r
  unfolding reg_loop
  regs_hit zero i k r h l u e = absurd (grind arith)
  regs_hit (suc n) i k r h l u e = elim (dec_lt k (i * width + width)) [
    | yes inside ↦ ground (arith, entries_hit width (i * width) k r h l inside e)
    | no past ↦ ground (
      arith,
      entries_skip width (i * width) (λ j p q. h j p (omega arith)),
      regs_hit n (i + 1) k r (λ j p q. h j (grind arith) q) (grind arith) (grind arith) e,
    )
  ]

abbrev pub cfg_at : Pmp → ℕ → ℕ
cfg_at pmp k = get_or pmp.cfg k 0

abbrev pub mode_at : Pmp → ℕ → ℕ
mode_at pmp k = cfg_at pmp k / 8 % 4

abbrev pub within : ℕ → ℕ → ℕ → Bool
within lo hi x = leb lo x && ltb x hi

-- The permission bit of an access: read, write, execute are bits 0, 1 and 2.
abbrev pub permits : BusAccessType → ℕ → Bool
permits bus_read_access cfg = test_bit cfg 0
permits bus_write_access cfg = test_bit cfg 1
permits bus_instr_access cfg = test_bit cfg 2

-- The bytes of the access are a range of the address space.
pub record IsAccess (a : Arch) (addr len : ℕ) : Type 0 where
  pub nonempty : 1 ≤ len
  pub no_wrap : addr + len ≤ 2 ^ xlen a

-- In machine mode an entry counts only if it is locked.
abbrev pub counts : Pmp → PrivilegeLevel → ℕ → Bool
counts pmp curr_priv k = not (is_machine curr_priv) || test_bit (cfg_at pmp k) 7

-- Entry `k` has nothing to say of the access.
pub data IsSkipped (a : Arch) (pmp : Pmp) (curr_priv : PrivilegeLevel) (addr len k : ℕ)
    : Type 0 where
  unlocked : counts pmp curr_priv k ≡ false → IsSkipped a pmp curr_priv addr len k
  off : mode_at pmp k ≡ 0 → IsSkipped a pmp curr_priv addr len k
  apart :
      {lo hi : ℕ}
      → Covers a pmp (mode_at pmp k) k lo hi
      → within lo hi addr ≡ false
      → within lo hi (addr + len - 1) ≡ false
      → IsSkipped a pmp curr_priv addr len k

-- The region of entry `k` holds one end of the access at least.
pub record IsMatched (a : Arch) (pmp : Pmp) (curr_priv : PrivilegeLevel) (addr len k : ℕ)
    : Type 0 where
  pub lo : ℕ
  pub hi : ℕ
  pub counted : counts pmp curr_priv k ≡ true
  pub covers : Covers a pmp (mode_at pmp k) k lo hi
  pub touches : within lo hi addr || within lo hi (addr + len - 1) ≡ true

Covers-le :
    {a : Arch} {pmp : Pmp} {mode k lo hi : ℕ}
    → Covers a pmp mode k lo hi
    → (lo ≤ hi) × (hi < 2 ^ xlen a) × (mode ≢ 0)
Covers-le (tor_first p q h) = omega arith
Covers-le (tor p q l h) = omega arith
Covers-le (na4 p q h) = omega arith
Covers-le (napot base k e l p q h) = omega arith

addr_within-eq :
    (a : Arch) (x lo hi : ℕ)
    → lo ≤ hi
    → hi < 2 ^ xlen a
    → addr_within (xlen a) x lo (hi - lo) ≡ within lo hi x
unfolding addr_within
addr_within-eq a x lo hi l h =
    let end : lo + (hi - lo) ≡ hi = omega arith in rw (end, mod-eq_of_lt h)

allowed-eq :
    (access : BusAccessType) (cfg : ℕ)
    → not (bit_and (2 ^ access_number access) (bit_and cfg 0x7) == 0) ≡ permits access cfg
allowed-eq access cfg = ap not (nibble_zero _ small) ∙ digits access
  where
    small : bit_and (2 ^ access_number access) (bit_and cfg 0x7) < 16
    small = bit_and-lt 4 _ _ (bit_and-lt 4 cfg 7 (omega arith))

    digits :
        (kind : BusAccessType)
        → (let x = bit_and (2 ^ access_number kind) (bit_and cfg 0x7) in
            not (not (test_bit x 0 || test_bit x 1 || test_bit x 2 || test_bit x 3)))
          ≡ permits kind cfg
    digits bus_read_access = simp test_bit-bit_and (ground arith)
    digits bus_write_access = simp test_bit-bit_and (ground arith)
    digits bus_instr_access = simp test_bit-bit_and (ground arith)

end-eq :
    (a : Arch) (addr len : ℕ)
    → IsAccess a addr len
    → wrap (xlen a) (addr + 2 ^ xlen a + len - 1) ≡ addr + len - 1
end-eq rv32 addr len h = omega arith
end-eq rv64 addr len h = omega arith

all_regs : (a : Arch) (k : ℕ) → k < 16 → k < (0 + 16 / xlen_bytes a) * xlen_bytes a
all_regs rv32 k h = h
all_regs rv64 k h = h

all_regs_below : (a : Arch) (k : ℕ) → k < (0 + 16 / xlen_bytes a) * xlen_bytes a → k < 16
all_regs_below rv32 k h = h
all_regs_below rv64 k h = h

module _ (a : Arch) (pmp : Pmp) (curr_priv : PrivilegeLevel) (addr len : ℕ) (access : BusAccessType)
    (is_access : IsAccess a addr len) where
  entry-skip :
      (k : ℕ)
      → IsSkipped a pmp curr_priv addr len k
      → check_entry a pmp curr_priv addr len access k ≡ next
  unfolding check_entry
  entry-skip k (unlocked h) = ground (arith, check_bit-eq-test_bit (cfg_at pmp k) 7)
  entry-skip k (off h) = ground (arith, extract-eq-mod 8 (cfg_at pmp k) 3 2)
  entry-skip k (apart {lo} {hi} c below above) = ground (
    arith,
    extract-eq-mod 8 (cfg_at pmp k) 3 2,
    region_of_Covers a pmp c,
    Covers-le c,
    end-eq a addr len is_access,
    addr_within-eq a addr lo hi,
    addr_within-eq a (addr + len - 1) lo hi,
  )

  -- The answer of a matching entry: machine mode may cross the bounds of the region.
  abbrev pub matched_answer : {k : ℕ} → IsMatched a pmp curr_priv addr len k → RvRet
  matched_answer {k} m = to_ret (
      permits access (cfg_at pmp k)
      && (is_machine curr_priv || within m.lo m.hi addr && within m.lo m.hi (addr + len - 1)))

  entry-match :
      (k : ℕ) (m : IsMatched a pmp curr_priv addr len k)
      → check_entry a pmp curr_priv addr len access k ≡ answer (matched_answer m)
  unfolding check_entry
  entry-match k m = ground (
    arith,
    check_bit-eq-test_bit (cfg_at pmp k) 7,
    extract-eq-mod 8 (cfg_at pmp k) 3 2,
    region_of_Covers a pmp m.covers,
    Covers-le m.covers,
    end-eq a addr len is_access,
    addr_within-eq a addr m.lo m.hi,
    addr_within-eq a (addr + len - 1) m.lo m.hi,
    allowed-eq access (cfg_at pmp k),
  )

  -- The lowest entry that matches decides. For an access that does not wrap and an entry that counts
  -- at its level and whose region holds one end of it at least, with every lower entry skipped (it
  -- does not count, is off, or its region holds neither end), the access is allowed exactly if the
  -- entry permits it and, below machine mode, holds both ends. The regions are those of Covers: they
  -- do not end before they start, they end below 2 ^ xlen, and a NAPOT region has fewer than 2 ^ 31
  -- bytes, so that its address register is not all ones. Nothing is said where an entry up to the
  -- deciding one that counts and is on has another region.
  pub pmp_mem_check_first :
      (k : ℕ) (m : IsMatched a pmp curr_priv addr len k)
      → k < 16
      → ((j : ℕ) → j < k → IsSkipped a pmp curr_priv addr len j)
      → pmp_mem_check a pmp curr_priv addr len access ≡ some (matched_answer m)
  unfolding pmp_mem_check
  pmp_mem_check_first k m h skipped = ground (
    arith,
    regs_hit a pmp curr_priv addr len access (16 / xlen_bytes a) 0 k (matched_answer m)
        (λ j l u. entry-skip j (skipped j u)) (omega arith) (all_regs a k h) (entry-match k m),
  )

  -- An access that does not wrap and that all sixteen entries skip is allowed in machine mode and
  -- denied below it, against the comment at the end of the function, which says that it is granted.
  -- An entry skips it that does not count, is off, or has a region of Covers that holds neither end:
  -- one that does not end before it starts, ends below 2 ^ xlen, and is of fewer than 2 ^ 31 bytes if
  -- it is a NAPOT region. Nothing is said where an entry that counts and is on has another region.
  pub pmp_mem_check_none :
      ((j : ℕ) → j < 16 → IsSkipped a pmp curr_priv addr len j)
      → pmp_mem_check a pmp curr_priv addr len access ≡ some (to_ret (is_machine curr_priv))
  unfolding pmp_mem_check
  pmp_mem_check_none skipped = ground (
    arith,
    regs_skip a pmp curr_priv addr len access (16 / xlen_bytes a) 0
        (λ j l u. entry-skip j (skipped j (all_regs_below a j u))),
  )
