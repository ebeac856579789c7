-- ===== src/Core/Prepare/Offsets.antt =====
-- The offsets that the preparation callbacks of src/core/core.c put together from their pieces.
use riscv_em.Base.{ℕ, ◌+◌, ◌*◌, ◌/◌, ◌^◌, ◌<◌, ◌≡◌, refl, ap, ◌∙◌, bit_or, none, some, arith}
use riscv_em.Base.Bits.{bit_or-add}
use riscv_em.Helper.{extract}
use riscv_em.Helper.Laws.{extract-eq-mod, mask-eq-mod}
use riscv_em.Types.{Arch, xlen}
use riscv_em.Core.State.{Core}
use riscv_em.Core.Words.{signex}
use riscv_em.Core.Prepare.{b_type_preparation, j_type_preparation}

-- The four pieces of a branch offset.
branch_pieces :
    (p q r s : ℕ)
    → p < 2 ^ 4
    → q < 2 ^ 6
    → r < 2
    → bit_or (bit_or (bit_or (p * 2 ^ 1) (q * 2 ^ 5)) (r * 2 ^ 11)) (s * 2 ^ 12)
      ≡ p * 2 + q * 32 + r * 2048 + s * 4096
branch_pieces p q r s hp hq hr =
    let first = bit_or-add 5 q (p * 2) (omega (arith, hp)) in
    let second = bit_or-add 11 r (p * 2 + q * 32) (omega (arith, hp, hq)) in
    let third = bit_or-add 12 s (p * 2 + q * 32 + r * 2048) (omega (arith, hp, hq, hr)) in
    ap (λ t. bit_or (bit_or t (r * 2 ^ 11)) (s * 2 ^ 12)) first
    ∙ ap (λ t. bit_or t (s * 2 ^ 12)) second
    ∙ third

-- A branch whose word is put together from its fields: the callback gives back the registers and the
-- function code, and the offset whose four pieces the word holds, sign-extended.
pub b_type_preparation_lem :
    (a : Arch) (c : Core) (opcode r p func3 rs1 rs2 q s : ℕ)
    → opcode < 2 ^ 7
    → r < 2
    → p < 2 ^ 4
    → func3 < 2 ^ 3
    → rs1 < 2 ^ 5
    → rs2 < 2 ^ 5
    → q < 2 ^ 6
    → s < 2
    → c.instruction
      ≡ opcode
        + r * 2 ^ 7
        + p * 2 ^ 8
        + func3 * 2 ^ 12
        + rs1 * 2 ^ 15
        + rs2 * 2 ^ 20
        + q * 2 ^ 25
        + s * 2 ^ 31
    → let (c', next) = b_type_preparation a c in
      (c'.jump_offset ≡ signex (xlen a) 13 (p * 2 + q * 32 + r * 2048 + s * 4096))
      × (c'.rs1 ≡ rs1)
      × (c'.rs2 ≡ rs2)
      × (next ≡ some func3)
unfolding b_type_preparation
b_type_preparation_lem a c opcode r p func3 rs1 rs2 q s h0 h1 h2 h3 h4 h5 h6 h7 e =
    let word = c.instruction in
    let at_p : extract 32 word 8 4 ≡ p = omega (arith, extract-eq-mod 32 word 8 4) in
    let at_q : extract 32 word 25 6 ≡ q = omega (arith, extract-eq-mod 32 word 25 6) in
    let at_r : extract 32 word 7 1 ≡ r = omega (arith, extract-eq-mod 32 word 7 1) in
    let at_s : extract 32 word 31 1 ≡ s = omega (arith, extract-eq-mod 32 word 31 1) in
    (
      rw (at_p, at_q, at_r, at_s) (ap (signex (xlen a) 13) (branch_pieces p q r s h2 h6 h1)),
      omega (arith, mask-eq-mod (word / 2 ^ 15) 5),
      omega (arith, mask-eq-mod (word / 2 ^ 20) 5),
      ap some (omega (arith, mask-eq-mod (word / 2 ^ 12) 3)),
    )

-- The four pieces of a jump offset.
jump_pieces :
    (p q r s : ℕ)
    → p < 2 ^ 10
    → q < 2
    → r < 2 ^ 8
    → bit_or (bit_or (bit_or (p * 2 ^ 1) (q * 2 ^ 11)) (r * 2 ^ 12)) (s * 2 ^ 20)
      ≡ p * 2 + q * 2048 + r * 4096 + s * 1048576
jump_pieces p q r s hp hq hr =
    let first = bit_or-add 11 q (p * 2) (omega (arith, hp)) in
    let second = bit_or-add 12 r (p * 2 + q * 2048) (omega (arith, hp, hq)) in
    let third = bit_or-add 20 s (p * 2 + q * 2048 + r * 4096) (omega (arith, hp, hq, hr)) in
    ap (λ t. bit_or (bit_or t (r * 2 ^ 12)) (s * 2 ^ 20)) first
    ∙ ap (λ t. bit_or t (s * 2 ^ 20)) second
    ∙ third

-- A jump whose word is put together from its fields: the callback gives back the target register,
-- and the offset whose four pieces the word holds, sign-extended.
j_type_preparation_lem :
    (a : Arch) (c : Core) (opcode rd r q p s : ℕ)
    → opcode < 2 ^ 7
    → rd < 2 ^ 5
    → r < 2 ^ 8
    → q < 2
    → p < 2 ^ 10
    → s < 2
    → c.instruction ≡ opcode + rd * 2 ^ 7 + r * 2 ^ 12 + q * 2 ^ 20 + p * 2 ^ 21 + s * 2 ^ 31
    → let (c', next) = j_type_preparation a c in
      (c'.jump_offset ≡ signex (xlen a) 21 (p * 2 + q * 2048 + r * 4096 + s * 1048576))
      × (c'.rd ≡ rd)
      × (next ≡ none)
unfolding j_type_preparation
j_type_preparation_lem a c opcode rd r q p s h0 h1 h2 h3 h4 h5 e =
    let word = c.instruction in
    let at_p : extract 32 word 21 10 ≡ p = omega (arith, extract-eq-mod 32 word 21 10) in
    let at_q : extract 32 word 20 1 ≡ q = omega (arith, extract-eq-mod 32 word 20 1) in
    let at_r : extract 32 word 12 8 ≡ r = omega (arith, extract-eq-mod 32 word 12 8) in
    let at_s : extract 32 word 31 1 ≡ s = omega (arith, extract-eq-mod 32 word 31 1) in
    (
      rw (at_p, at_q, at_r, at_s) (ap (signex (xlen a) 21) (jump_pieces p q r s h4 h3 h2)),
      omega (arith, mask-eq-mod (word / 2 ^ 7) 5),
      refl,
    )
