-- ===== src/Core/Run/Fields.antt =====
-- What the preparation callbacks of src/core/core.c leave: the registers and the instruction, and in
-- `rd` the instruction's field or 0.
use riscv_em.Base.{ℕ, ◌/◌, ◌%◌, ◌^◌, ◌≡◌, refl, ap, ◌∙◌, ◌⊎◌, inr, some, bit_and}
use riscv_em.Helper.Laws.{mask-eq-mod}
use riscv_em.Types.{Arch}
use riscv_em.Core.State.{Core}
use riscv_em.Core.Prepare.{
  r_type_preparation, i_type_preparation, s_type_preparation, b_type_preparation,
  u_type_preparation, j_type_preparation, preparation_func5, preparation_func6, preparation_func7,
  preparation_func7_func12_sub5_extended,
}

-- The destination register that an instruction word names
abbrev pub rd_field : ℕ → ℕ
rd_field instruction = instruction / 2 ^ 7 % 2 ^ 5

-- A state of the fields while the instruction of `o` is decoded.
pub record IsDecoding (o c : Core) : Type 0 where
  pub same_x : c.x ≡ o.x
  pub same_word : c.instruction ≡ o.instruction
  pub target : (c.rd ≡ 0) ⊎ (c.rd ≡ rd_field o.instruction)

named :
    (o c : Core)
    → c.instruction ≡ o.instruction
    → bit_and (c.instruction / 2 ^ 7) 0x1F ≡ rd_field o.instruction
named o c e = mask-eq-mod (c.instruction / 2 ^ 7) 5 ∙ ap rd_field e

pub i_type_preparation-IsDecoding :
    (o c : Core)
    → IsDecoding o c
    → IsDecoding o (i_type_preparation c).0 × ((k : ℕ) × ((i_type_preparation c).1 ≡ some k))
unfolding i_type_preparation
i_type_preparation-IsDecoding o c k = (
  record { same_x = k.same_x; same_word = k.same_word; target = inr (named o c k.same_word) },
  (_, refl),
)

pub r_type_preparation-IsDecoding :
    (o c : Core)
    → IsDecoding o c
    → IsDecoding o (r_type_preparation c).0 × ((k : ℕ) × ((r_type_preparation c).1 ≡ some k))
unfolding r_type_preparation
r_type_preparation-IsDecoding o c k = (
  record { same_x = k.same_x; same_word = k.same_word; target = inr (named o c k.same_word) },
  (_, refl),
)

pub b_type_preparation-IsDecoding :
    (a : Arch) (o c : Core)
    → IsDecoding o c
    → IsDecoding o (b_type_preparation a c).0 × ((k : ℕ) × ((b_type_preparation a c).1 ≡ some k))
unfolding b_type_preparation
b_type_preparation-IsDecoding a o c k = (
  record { same_x = k.same_x; same_word = k.same_word; target = inr (named o c k.same_word) },
  (_, refl),
)

pub u_type_preparation-IsDecoding :
    (a : Arch) (o c : Core) → IsDecoding o c → IsDecoding o (u_type_preparation a c).0
unfolding u_type_preparation
u_type_preparation-IsDecoding a o c k = record {
  same_x = k.same_x;
  same_word = k.same_word;
  target = inr (named o c k.same_word);
}

pub j_type_preparation-IsDecoding :
    (a : Arch) (o c : Core) → IsDecoding o c → IsDecoding o (j_type_preparation a c).0
unfolding j_type_preparation
j_type_preparation-IsDecoding a o c k = record {
  same_x = k.same_x;
  same_word = k.same_word;
  target = inr (named o c k.same_word);
}

pub s_type_preparation-IsDecoding :
    (o c : Core)
    → IsDecoding o c
    → IsDecoding o (s_type_preparation c).0 × ((k : ℕ) × ((s_type_preparation c).1 ≡ some k))
unfolding s_type_preparation
s_type_preparation-IsDecoding o c k =
    (record { same_x = k.same_x; same_word = k.same_word; target = k.target }, (_, refl))

pub preparation_func5-IsDecoding :
    (o c : Core)
    → IsDecoding o c
    → IsDecoding o (preparation_func5 c).0 × ((k : ℕ) × ((preparation_func5 c).1 ≡ some k))
unfolding preparation_func5
preparation_func5-IsDecoding o c k =
    (record { same_x = k.same_x; same_word = k.same_word; target = k.target }, (_, refl))

pub preparation_func6-IsDecoding :
    (o c : Core)
    → IsDecoding o c
    → IsDecoding o (preparation_func6 c).0 × ((k : ℕ) × ((preparation_func6 c).1 ≡ some k))
unfolding preparation_func6
preparation_func6-IsDecoding o c k =
    (record { same_x = k.same_x; same_word = k.same_word; target = k.target }, (_, refl))

pub preparation_func7-IsDecoding :
    (o c : Core)
    → IsDecoding o c
    → IsDecoding o (preparation_func7 c).0 × ((k : ℕ) × ((preparation_func7 c).1 ≡ some k))
unfolding preparation_func7
preparation_func7-IsDecoding o c k =
    (record { same_x = k.same_x; same_word = k.same_word; target = k.target }, (_, refl))

pub preparation_func7_func12_sub5_extended-IsDecoding :
    (o c : Core)
    → IsDecoding o c
    → IsDecoding o (preparation_func7_func12_sub5_extended c).0
      × ((k : ℕ) × ((preparation_func7_func12_sub5_extended c).1 ≡ some k))
unfolding preparation_func7_func12_sub5_extended
preparation_func7_func12_sub5_extended-IsDecoding o c k =
    (record { same_x = k.same_x; same_word = k.same_word; target = k.target }, (_, refl))
