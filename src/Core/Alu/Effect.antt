-- ===== src/Core/Alu/Effect.antt =====
-- What the instructions on two registers in src/core/core.c leave in their target, digit by digit or
-- as arithmetic modulo the width.
use native.Mathlib.Nat.{mod-add-mod, add-mul-mod_self_left, mod-eq_of_lt}
use riscv_em.Base.{
  ℕ, ◌+◌, ◌-◌, ◌*◌, ◌%◌, ◌^◌, ◌<◌, ◌≡◌, ap, ◌∙◌, refl, bit_and, not, ◌&&◌, ◌||◌, ltb, leb, min,
  ◌==◌, if◌then◌else◌, get_or, length, get_or-set_self, arith, Bool, true, false,
}
use riscv_em.Base.Bits.{
  test_bit, test_bit-bit_and, test_bit-bit_or, test_bit-bit_xor, test_bit-mod, test_bit-shl,
  test_bit-shr,
}
use riscv_em.Base.Words.{bit_of, wrap, sub_word}
use riscv_em.Types.{Arch, rv32, rv64, xlen}
use riscv_em.Helper.Laws.{mask-eq-mod}
use riscv_em.Core.State.{Core, rs1_val, rs2_val, write_rd}
use riscv_em.Core.Words.{shift_op_mask}
use riscv_em.Core.Words.Signed.{ltb_signed_lem, shift_right_signed_lem}
use riscv_em.Core.Alu.{
  instr_add, instr_sub, instr_sll, instr_slt, instr_srl, instr_sra, instr_sltu, instr_xor, instr_or,
  instr_and,
}

-- The target register
abbrev pub target : Core → ℕ → ℕ
target c r = get_or c.x r 0

shift_count : (a : Arch) (v : ℕ) → bit_and v (shift_op_mask a) ≡ v % xlen a
shift_count rv32 v = mask-eq-mod v 5
shift_count rv64 v = mask-eq-mod v 6

abbrev pub same_bit : Bool → Bool → Bool
same_bit true y = y
same_bit false y = not y

==_true→eq : (x y : ℕ) → (x == y) ≡ true → x ≡ y
==_true→eq x y h = ground arith

differ : (x y : Bool) → (x || y) && not (x && y) ≡ not (same_bit x y)
differ true true = refl
differ true false = refl
differ false true = refl
differ false false = refl

sub_back : (w u v : ℕ) → u < 2 ^ w → v < 2 ^ w → (sub_word w u v + v) % 2 ^ w ≡ u
sub_back w u v h k =
    let whole : u + 2 ^ w - v + v ≡ u + 2 ^ w * 1 = omega arith in
    mod-add-mod (u + 2 ^ w - v) (2 ^ w) v
    ∙ ap (λ n. n % 2 ^ w) whole
    ∙ add-mul-mod_self_left u (2 ^ w) 1
    ∙ mod-eq_of_lt h

shifted_up : (w u k i : ℕ) → i < w → test_bit (wrap w (u * 2 ^ k)) i ≡ leb k i && test_bit u (i - k)
shifted_up w u k i h = rw (test_bit-mod, test_bit-shl) (ground arith)

module _ (c : Core) (rd_exists : c.rd < length c.x) where
  written : (v : ℕ) → target (write_rd c v) c.rd ≡ v
  written v = get_or-set_self c.x c.rd v 0 rd_exists

  chosen : (b : Bool) → target (if b then write_rd c 1 else write_rd c 0) c.rd ≡ bit_of b
  chosen true = written 1
  chosen false = written 0

  sltu_chosen :
      (zero : get_or c.x 0 0 ≡ 0)
      → target (instr_sltu c) c.rd ≡ bit_of (ltb (rs1_val c) (rs2_val c))
  unfolding instr_sltu
  sltu_chosen zero = by_rs1 (c.rs1 == 0) λ e. zero_first (==_true→eq c.rs1 0 e)
    where
      zero_first : c.rs1 ≡ 0 → not (rs2_val c == 0) ≡ ltb (rs1_val c) (rs2_val c)
      zero_first e =
          let none : rs1_val c ≡ 0 = ap (λ r. get_or c.x r 0) e ∙ zero in rw none (ground arith)

      by_rs1 :
          (b : Bool)
          → (b ≡ true → not (rs2_val c == 0) ≡ ltb (rs1_val c) (rs2_val c))
          → target
              (if b
                then (if not (rs2_val c == 0) then write_rd c 1 else write_rd c 0)
                else (if ltb (rs1_val c) (rs2_val c) then write_rd c 1 else write_rd c 0))
              c.rd
            ≡ bit_of (ltb (rs1_val c) (rs2_val c))
      by_rs1 true same = chosen (not (rs2_val c == 0)) ∙ ap bit_of (same refl)
      by_rs1 false same = chosen (ltb (rs1_val c) (rs2_val c))

-- For a hart whose x[0] is 0, two words in the source registers and a target that exists, and for
-- the digit `i` of the target: the sum and the difference are those modulo 2 ^ w; the comparisons
-- give 1 or 0 by the order of the words, and by the order of the words with the bias 2 ^ (w - 1); the
-- shifts move the digits by the second word modulo w, with clear digits or the sign digit in their
-- place; and the digits of the others are those of the two words, combined.
pub register_instructions_lem :
    (a : Arch) (c : Core) (i : ℕ)
    → get_or c.x 0 0 ≡ 0
    → rs1_val c < 2 ^ xlen a
    → rs2_val c < 2 ^ xlen a
    → c.rd < length c.x
    → i < xlen a
    → let w = xlen a in
      let u = rs1_val c in
      let v = rs2_val c in
      let k = v % w in
      (target (instr_add a c) c.rd ≡ (u + v) % 2 ^ w)
      × ((target (instr_sub a c) c.rd + v) % 2 ^ w ≡ u)
      × (target (instr_slt a c) c.rd
          ≡ bit_of (ltb ((u + 2 ^ (w - 1)) % 2 ^ w) ((v + 2 ^ (w - 1)) % 2 ^ w)))
      × (target (instr_sltu c) c.rd ≡ bit_of (ltb u v))
      × (test_bit (target (instr_sll a c) c.rd) i ≡ leb k i && test_bit u (i - k))
      × (test_bit (target (instr_srl a c) c.rd) i ≡ test_bit u (k + i))
      × (test_bit (target (instr_sra a c) c.rd) i ≡ test_bit u (min (k + i) (w - 1)))
      × (test_bit (target (instr_xor c) c.rd) i ≡ not (same_bit (test_bit u i) (test_bit v i)))
      × (test_bit (target (instr_or c) c.rd) i ≡ test_bit u i || test_bit v i)
      × (test_bit (target (instr_and c) c.rd) i ≡ test_bit u i && test_bit v i)
unfolding instr_add instr_sub instr_sll instr_slt instr_srl instr_sra instr_xor instr_or instr_and
register_instructions_lem a c i zero hu hv rd_exists hi =
    let w = xlen a in
    let u = rs1_val c in
    let v = rs2_val c in
    let k = bit_and v (shift_op_mask a) in
    let count : k ≡ v % w = shift_count a v in
    let digit : ℕ → Bool = λ (n : ℕ). test_bit n i in
    (
      written c rd_exists _,
      ap (λ t. (t + v) % 2 ^ w) (written c rd_exists _) ∙ sub_back w u v hu hv,
      chosen c rd_exists _ ∙ ap bit_of (ltb_signed_lem w u v (omega (arith, hi)) hu hv),
      sltu_chosen c rd_exists zero,
      ap digit (written c rd_exists _)
          ∙ shifted_up w u k i hi
          ∙ ap (λ n. leb n i && test_bit u (i - n)) count,
      ap digit (written c rd_exists _) ∙ test_bit-shr u k i ∙ ap (λ n. test_bit u (n + i)) count,
      ap digit (written c rd_exists _)
          ∙ shift_right_signed_lem w u k i (omega (arith, hi)) hu hi
          ∙ ap (λ n. test_bit u (min (n + i) (w - 1))) count,
      ap digit (written c rd_exists _)
          ∙ test_bit-bit_xor u v i
          ∙ differ (test_bit u i) (test_bit v i),
      ap digit (written c rd_exists _) ∙ test_bit-bit_or u v i,
      ap digit (written c rd_exists _) ∙ test_bit-bit_and u v i,
    )
