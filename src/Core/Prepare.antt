-- ===== src/Core/Prepare.antt =====
-- src/core/core.c: the preparation callbacks, which take the fields of an instruction apart. The
-- result has the value left in `*next_subcode`; `none` is -1.
pub mod Offsets
use riscv_em.Base.{ℕ, ◌*◌, ◌/◌, ◌^◌, bit_and, bit_or, Option, none, some}
use riscv_em.Base.Words.{wrap}
use riscv_em.Helper.{extract}
use riscv_em.Types.{Arch, xlen}
use riscv_em.Core.State.{Core}
use riscv_em.Core.Words.{signex}

-- `(instruction >> start) & mask`
abbrev pub field : Core → ℕ → ℕ → ℕ
field c start mask = bit_and (c.instruction / 2 ^ start) mask

unfoldable pub preparation_func5 : Core → Core × Option ℕ
preparation_func5 c = let v = field c 27 0x1F in (record c { func5 = v }, some v)

unfoldable pub preparation_func6 : Core → Core × Option ℕ
preparation_func6 c = let v = field c 26 0x3F in (record c { func6 = v }, some v)

unfoldable pub preparation_func7 : Core → Core × Option ℕ
preparation_func7 c = let v = field c 25 0x7F in (record c { func7 = v }, some v)

unfoldable pub preparation_func7_func12_sub5_extended : Core → Core × Option ℕ
preparation_func7_func12_sub5_extended c =
    let v = field c 20 0x1F in (record c { func5 = v }, some v)

unfoldable pub r_type_preparation : Core → Core × Option ℕ
r_type_preparation c =
    let func3 = field c 12 0x7 in
    (
      record c { rd = field c 7 0x1F; func3 = func3; rs1 = field c 15 0x1F; rs2 = field c 20 0x1F },
      some func3,
    )

unfoldable pub i_type_preparation : Core → Core × Option ℕ
i_type_preparation c =
    let func3 = field c 12 0x7 in
    (
      record c {
        rd = field c 7 0x1F;
        func3 = func3;
        rs1 = field c 15 0x1F;
        immediate = field c 20 0xFFF;
      },
      some func3,
    )

unfoldable pub s_type_preparation : Core → Core × Option ℕ
s_type_preparation c =
    let func3 = field c 12 0x7 in
    (
      record c {
        func3 = func3;
        rs1 = field c 15 0x1F;
        rs2 = field c 20 0x1F;
        immediate = bit_or (wrap 32 (c.instruction / 2 ^ 25 * 2 ^ 5)) (field c 7 0x1F);
      },
      some func3,
    )

module _ (a : Arch) where
  unfoldable pub b_type_preparation : Core → Core × Option ℕ
  b_type_preparation c =
      let func3 = field c 12 0x7 in
      let offset =
        bit_or
          (bit_or
            (bit_or (extract 32 c.instruction 8 4 * 2 ^ 1) (extract 32 c.instruction 25 6 * 2 ^ 5))
            (extract 32 c.instruction 7 1 * 2 ^ 11))
          (extract 32 c.instruction 31 1 * 2 ^ 12) in
      (
        record c {
          rd = field c 7 0x1F;
          func3 = func3;
          rs1 = field c 15 0x1F;
          rs2 = field c 20 0x1F;
          jump_offset = signex (xlen a) 13 offset;
        },
        some func3,
      )

  unfoldable pub u_type_preparation : Core → Core × Option ℕ
  u_type_preparation c =
      (record c { rd = field c 7 0x1F; immediate = signex (xlen a) 20 (field c 12 0xFFFFF) }, none)

  unfoldable pub j_type_preparation : Core → Core × Option ℕ
  j_type_preparation c =
      let offset =
        bit_or
          (bit_or
            (bit_or (extract 32 c.instruction 21 10 * 2 ^ 1)
              (extract 32 c.instruction 20 1 * 2 ^ 11))
            (extract 32 c.instruction 12 8 * 2 ^ 12))
          (extract 32 c.instruction 31 1 * 2 ^ 20) in
      (record c { rd = field c 7 0x1F; jump_offset = signex (xlen a) 21 offset }, none)
