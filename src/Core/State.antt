-- ===== src/Core/State.antt =====
-- src/core/core.h: the registers of `rv_core_td` and the fields of the instruction being decoded,
-- each with the width that the header gives it. `xlen a` is the width of `rv_uint_xlen`.
use riscv_em.Base.{ℕ, List, get_or, set}

-- `rv_core_td`, the part that the instructions on registers read and write
pub record Core : Type 0 where
  pub x : List ℕ
  pub pc : ℕ
  pub next_pc : ℕ
  pub instruction : ℕ
  pub rd : ℕ
  pub rs1 : ℕ
  pub rs2 : ℕ
  pub func3 : ℕ
  pub func5 : ℕ
  pub func6 : ℕ
  pub func7 : ℕ
  pub immediate : ℕ
  pub jump_offset : ℕ

-- `rv_core->x[rv_core->rs1]`, `rv_core->x[rv_core->rs2]`, and an assignment to
-- `rv_core->x[rv_core->rd]`. The three indexes are 5-bit fields of the instruction.
abbrev pub rs1_val : Core → ℕ
rs1_val c = get_or c.x c.rs1 0

abbrev pub rs2_val : Core → ℕ
rs2_val c = get_or c.x c.rs2 0

abbrev pub write_rd : Core → ℕ → Core
write_rd c v = record c { x = set c.x c.rd v }
