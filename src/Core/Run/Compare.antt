-- ===== src/Core/Run/Compare.antt =====
-- What the comparisons and XORI of src/core/core.c write: at most `rd`.
use riscv_em.Base.{
  ℕ, Bool, true, false, not, ◌==◌, ltb, ◌^◌, ◌-◌, bit_xor, if◌then◌else◌, inr, refl,
}
use riscv_em.Types.{Arch, xlen}
use riscv_em.Core.State.{Core, rs1_val, rs2_val, write_rd}
use riscv_em.Core.Words.{ltb_signed}
use riscv_em.Core.Alu.{immediate_11, instr_slt, instr_slti, instr_sltu, instr_sltiu, instr_xori}
use riscv_em.Core.Run.Writes.{WritesRd, write_rd-WritesRd}

set_if : (c : Core) (b : Bool) → WritesRd c (if b then write_rd c 1 else write_rd c 0)
set_if c true = write_rd-WritesRd c 1
set_if c false = write_rd-WritesRd c 0

if-WritesRd :
    (c p q : Core) (b : Bool) → WritesRd c p → WritesRd c q → WritesRd c (if b then p else q)
if-WritesRd c p q true hp hq = hp
if-WritesRd c p q false hp hq = hq

pub slt-WritesRd : (a : Arch) (c : Core) → WritesRd c (instr_slt a c)
unfolding instr_slt
slt-WritesRd a c = set_if c (ltb_signed (xlen a) (rs1_val c) (rs2_val c))

pub slti-WritesRd : (a : Arch) (c : Core) → WritesRd c (instr_slti a c)
unfolding instr_slti
slti-WritesRd a c = set_if c (ltb_signed (xlen a) (rs1_val c) (immediate_11 a c))

pub sltiu-WritesRd : (a : Arch) (c : Core) → WritesRd c (instr_sltiu a c)
unfolding instr_sltiu
sltiu-WritesRd a c = set_if c (ltb (rs1_val c) (immediate_11 a c))

pub sltu-WritesRd : (c : Core) → WritesRd c (instr_sltu c)
unfolding instr_sltu
sltu-WritesRd c =
    if-WritesRd c (if not (rs2_val c == 0) then write_rd c 1 else write_rd c 0)
      (if ltb (rs1_val c) (rs2_val c) then write_rd c 1 else write_rd c 0) (c.rs1 == 0)
      (set_if c (not (rs2_val c == 0))) (set_if c (ltb (rs1_val c) (rs2_val c)))

xori_if :
    (c : Core) (i v w : ℕ) (b : Bool)
    → WritesRd c (let c' = record c { immediate = i } in if b then write_rd c' v else write_rd c' w)
xori_if c i v w true = record { registers = inr (v, refl); same_instruction = refl }
xori_if c i v w false = record { registers = inr (w, refl); same_instruction = refl }

pub xori-WritesRd : (a : Arch) (c : Core) → WritesRd c (instr_xori a c)
unfolding instr_xori
xori-WritesRd a c =
    xori_if c (immediate_11 a c) (bit_xor (rs1_val c) (2 ^ xlen a - 1))
      (bit_xor (rs1_val c) (immediate_11 a c)) (immediate_11 a c == 2 ^ xlen a - 1)
