-- ===== src/Core/Muldiv.antt =====
-- src/core/core.c: the instructions of the M extension.
pub mod Recompose
pub mod Division
use riscv_em.Base.{ℕ, ◌+◌, ◌-◌, ◌*◌, ◌/◌, ◌%◌, ◌^◌, ◌==◌, ◌&&◌, if◌then◌else◌}
use riscv_em.Base.Words.{wrap}
use riscv_em.Types.{Arch, xlen, rv32, rv64}
use riscv_em.Core.State.{Core, rs1_val, rs2_val, write_rd}
use riscv_em.Core.Words.{half, div_signed, rem_signed}
use riscv_em.Core.Wide.{umul_wide, mul_wide, mulhsu_wide}
use riscv_em.Core.AluW.{write_rd_32}

-- What `instr_DIV`, `instr_DIVU`, `instr_REM` and `instr_REMU` write for words of `w` bits, and
-- their 32-bit variants before the sign is extended.
unfoldable pub div_result : ℕ → ℕ → ℕ → ℕ
div_result w rs rs2 =
    if rs2 == 0
    then 2 ^ w - 1
    else if rs == 2 ^ (w - 1) && (rs2 == 2 ^ w - 1)
    then 2 ^ (w - 1)
    else div_signed w rs rs2

unfoldable pub divu_result : ℕ → ℕ → ℕ → ℕ
divu_result w rs rs2 = if rs2 == 0 then 2 ^ w - 1 else rs / rs2

unfoldable pub rem_result : ℕ → ℕ → ℕ → ℕ
rem_result w rs rs2 =
    if rs2 == 0
    then rs
    else if rs == 2 ^ (w - 1) && (rs2 == 2 ^ w - 1)
    then 0
    else rem_signed w rs rs2

unfoldable pub remu_result : ℕ → ℕ → ℕ
remu_result rs rs2 = if rs2 == 0 then rs else rs % rs2

module _ (a : Arch) where
  unfoldable pub instr_div : Core → Core
  instr_div c = write_rd c (div_result (xlen a) (rs1_val c) (rs2_val c))

  unfoldable pub instr_divu : Core → Core
  instr_divu c = write_rd c (divu_result (xlen a) (rs1_val c) (rs2_val c))

  unfoldable pub instr_rem : Core → Core
  instr_rem c = write_rd c (rem_result (xlen a) (rs1_val c) (rs2_val c))

  unfoldable pub instr_mul : Core → Core
  instr_mul c = write_rd c (wrap (xlen a) (rs1_val c * rs2_val c))

  unfoldable pub instr_mulh : Core → Core
  instr_mulh c = let (hi, lo) = mul_wide (half a) (rs1_val c) (rs2_val c) in write_rd c hi

  unfoldable pub instr_mulhu : Core → Core
  instr_mulhu c = let (hi, lo) = umul_wide (half a) (rs1_val c) (rs2_val c) in write_rd c hi

  unfoldable pub instr_mulhsu : Core → Core
  instr_mulhsu c = let (hi, lo) = mulhsu_wide (half a) (rs1_val c) (rs2_val c) in write_rd c hi

unfoldable pub instr_remu : Core → Core
instr_remu c = write_rd c (remu_result (rs1_val c) (rs2_val c))

-- RV64 only.
unfoldable pub instr_mulw : Core → Core
instr_mulw c = write_rd_32 c (wrap 32 (wrap 32 (rs1_val c) * wrap 32 (rs2_val c)))

unfoldable pub instr_divw : Core → Core
instr_divw c = write_rd_32 c (div_result 32 (wrap 32 (rs1_val c)) (wrap 32 (rs2_val c)))

unfoldable pub instr_divuw : Core → Core
instr_divuw c = write_rd_32 c (divu_result 32 (wrap 32 (rs1_val c)) (wrap 32 (rs2_val c)))

unfoldable pub instr_remw : Core → Core
instr_remw c = write_rd_32 c (rem_result 32 (wrap 32 (rs1_val c)) (wrap 32 (rs2_val c)))

unfoldable pub instr_remuw : Core → Core
instr_remuw c = write_rd_32 c (remu_result (wrap 32 (rs1_val c)) (wrap 32 (rs2_val c)))
