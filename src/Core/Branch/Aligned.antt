-- ===== src/Core/Branch/Aligned.antt =====
-- The jumps of src/core/core.c never leave the word boundary.
use riscv_em.Base.{
  ℕ, ◌+◌, ◌/◌, ◌%◌, ◌^◌, ◌≡◌, refl, bit_and, not, ◌==◌, if◌then◌else◌, Bool, true, false, arith,
  Option, none, some,
}
use riscv_em.Base.Bits.{bit_and_split}
use riscv_em.Base.Words.{wrap, complement}
use riscv_em.Helper.Laws.{bit_and-lt}
use riscv_em.Types.{Arch, rv32, rv64, xlen}
use riscv_em.Core.State.{Core, rs1_val}
use riscv_em.Core.Words.{signex}
use riscv_em.Core.Branch.{
  addr_misaligned, branch_if, instr_jal, instr_jalr, instr_beq, instr_bne, instr_blt, instr_bge,
  instr_bltu, instr_bgeu,
}

low_digits : (x : ℕ) → bit_and x 3 ≡ x % 4
low_digits x =
    omega
      (arith, bit_and_split x 3, bit_and_split (x / 2) 1, bit_and-lt 0 (x / 2 / 2) 0 (omega arith))

addr_misaligned_lem : (x : ℕ) → addr_misaligned x ≡ not (x % 4 == 0)
unfolding addr_misaligned
addr_misaligned_lem x = ground (arith, low_digits x)

-- The program has ended, or the next program counter stands on a word.
abbrev pub IsAligned : Option Core → Type 0
IsAligned none = Unit
IsAligned (some c) = c.next_pc % 4 ≡ 0

unless_misaligned :
    (b : Bool) (c : Core) → (b ≡ false → c.next_pc % 4 ≡ 0) → IsAligned (if b then none else some c)
unless_misaligned true c h = tt
unless_misaligned false c h = h refl

target-aligned :
    (a : Arch) (pc offset : ℕ)
    → pc % 4 ≡ 0
    → addr_misaligned offset ≡ false
    → wrap (xlen a) (pc + offset) % 4 ≡ 0
target-aligned rv32 pc offset h e = ground (arith, addr_misaligned_lem offset)
target-aligned rv64 pc offset h e = ground (arith, addr_misaligned_lem offset)

branch_if-IsAligned :
    (a : Arch) (b : Bool) (c : Core)
    → c.pc % 4 ≡ 0
    → c.next_pc % 4 ≡ 0
    → IsAligned (branch_if a b c)
unfolding branch_if
branch_if-IsAligned a true c h k =
    unless_misaligned (addr_misaligned c.jump_offset) _ (target-aligned a c.pc c.jump_offset h)
branch_if-IsAligned a false c h k = k

-- Each jump and each branch that does not end the program leaves an aligned next program counter,
-- if it starts from an aligned one.
pub jumps-IsAligned :
    (a : Arch) (c : Core)
    → c.pc % 4 ≡ 0
    → c.next_pc % 4 ≡ 0
    → IsAligned (instr_jal a c)
      × IsAligned (instr_jalr a c)
      × IsAligned (instr_beq a c)
      × IsAligned (instr_bne a c)
      × IsAligned (instr_blt a c)
      × IsAligned (instr_bge a c)
      × IsAligned (instr_bltu a c)
      × IsAligned (instr_bgeu a c)
unfolding instr_jal instr_jalr instr_beq instr_bne instr_blt instr_bge instr_bltu instr_bgeu
jumps-IsAligned a c h k =
    let target =
      bit_and (wrap (xlen a) (rs1_val c + signex (xlen a) 12 c.immediate))
        (complement (xlen a) (2 ^ 0)) in
    (
      unless_misaligned (addr_misaligned c.jump_offset) _ (target-aligned a c.pc c.jump_offset h),
      unless_misaligned (addr_misaligned target) _
          (λ e. ground (arith, addr_misaligned_lem target)),
      branch_if-IsAligned a _ c h k,
      branch_if-IsAligned a _ c h k,
      branch_if-IsAligned a _ c h k,
      branch_if-IsAligned a _ c h k,
      branch_if-IsAligned a _ c h k,
      branch_if-IsAligned a _ c h k,
    )
