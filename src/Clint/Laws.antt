-- ===== src/Clint/Laws.antt =====
-- What a guest and the interrupt logic see of src/peripherals/clint/clint.c.
use riscv_em.Base.{
  ℕ, ◌+◌, ◌%◌, ◌^◌, ◌≤◌, ◌≡◌, refl, sym, ap, ap₂, ◌∙◌, leb, if◌then◌else◌, some, List, [], ◌∷◌,
  length, take, drop, to_bytes, of_bytes, length-to_bytes, of_bytes-to_bytes, arith, bit_and,
}
use riscv_em.Base.Bits.{test_bit-bit_and, test_bit-mod, test_bit-pow, test_bit_ext}
use riscv_em.Base.Words.{bit_of, wrap, wrap-lt}
use riscv_em.Base.Memory.{splice, length-splice, take-drop-splice, take-drop-splice_apart}
use riscv_em.Types.{Arch, rv_ok, bus_read_access, bus_write_access}
use riscv_em.Clint.{Clint, reg, get_u8_arr_index_offs, clint_bus_access, clint_update}

-- The three registers.
abbrev pub IsClint : Clint → Type 0
IsClint c = length c.regs ≡ 24

bit_and-one : (x : ℕ) → bit_and x 1 ≡ x % 2
bit_and-one x =
    test_bit_ext _ _
      λ i. ground (arith, test_bit-bit_and x 1 i, test_bit-mod x 1 i, test_bit-pow 0 i)

reg-splice :
    (regs src : List ℕ)
    → length regs ≡ 24
    → length src ≡ 8
    → let new : Clint = record { regs = splice regs 16 src } in
      let old : Clint = record { regs = regs } in
      (reg new 2 ≡ of_bytes src) × (reg new 1 ≡ reg old 1) × (reg new 0 ≡ reg old 0)
reg-splice regs src h k = (
  ap of_bytes (whole (length src) k (take-drop-splice regs 16 src (omega arith))),
  ap of_bytes (take-drop-splice_apart regs 16 src 8 8 (omega arith)),
  ap of_bytes (take-drop-splice_apart regs 16 src 0 8 (omega arith)),
)
  where
    whole :
        (n : ℕ)
        → n ≡ 8
        → take n (drop 16 (splice regs 16 src)) ≡ src
        → take 8 (drop 16 (splice regs 16 src)) ≡ src
    whole n e h' = ap (λ m. take m (drop 16 (splice regs 16 src))) (sym e) ∙ h'

after_bump :
    (c : Clint) (src : List ℕ)
    → IsClint c
    → length src ≡ 8
    → of_bytes src ≡ (reg c 2 + 1) % 2 ^ 64
    → let c' : Clint = record { regs = splice c.regs 16 src } in
      (reg c' 2 ≡ (reg c 2 + 1) % 2 ^ 64)
      × (reg c' 1 ≡ reg c 1)
      × (reg c' 0 ≡ reg c 0)
      × (bit_and (reg c' 0) 1 ≡ reg c 0 % 2)
      × (bit_of (leb (reg c' 1) (reg c' 2))
          ≡ (if leb (reg c 1) ((reg c 2 + 1) % 2 ^ 64) then 1 else 0))
      × IsClint c'
after_bump c src h k e =
    let (time, cmp, msip) = reg-splice c.regs src h k in
    let time' = time ∙ e in
    (
      time',
      cmp,
      msip,
      ap (λ x. bit_and x 1) msip ∙ bit_and-one (reg c 0),
      ap₂ (λ x y. bit_of (leb x y)) cmp time',
      length-splice c.regs 16 src ∙ h,
    )

-- One update adds one to the time, modulo 2 ^ 64, keeps the two other registers, raises the timer
-- interrupt exactly if the new time has reached the comparator, and gives the lowest bit of the
-- software interrupt register.
pub clint_update_lem :
    (c : Clint)
    → IsClint c
    → let (c', msi, mti) = clint_update c in
      (reg c' 2 ≡ (reg c 2 + 1) % 2 ^ 64)
      × (reg c' 1 ≡ reg c 1)
      × (reg c' 0 ≡ reg c 0)
      × (msi ≡ reg c 0 % 2)
      × (mti ≡ (if leb (reg c 1) ((reg c 2 + 1) % 2 ^ 64) then 1 else 0))
      × IsClint c'
unfolding clint_update
clint_update_lem c h =
    after_bump c (to_bytes 8 (wrap 64 (reg c 2 + 1))) h (length-to_bytes 8 (wrap 64 (reg c 2 + 1)))
      (of_bytes-to_bytes 8 (wrap 64 (reg c 2 + 1)) (wrap-lt 64 (reg c 2 + 1)))

take-length_self : (bytes : List ℕ) → take (length bytes) bytes ≡ bytes
take-length_self [] = refl
take-length_self (b ∷ bs) = ap (λ t. b ∷ t) (take-length_self bs)

offs-le : (a : Arch) (address offs : ℕ) → get_u8_arr_index_offs a address ≡ some offs → offs ≤ 16
unfolding get_u8_arr_index_offs
offs-le a address offs h = ground arith

-- A write of `bytes` inside one mapped register succeeds, changes nothing but these bytes, and an
-- immediately following read of the same range gives them back and changes nothing.
pub clint_write-read :
    (a : Arch) (c : Clint) (address offs : ℕ) (bytes buf : List ℕ)
    → IsClint c
    → get_u8_arr_index_offs a address ≡ some offs
    → address % 8 + length bytes ≤ 8
    → let c' : Clint = record { regs = splice c.regs (address % 8 + offs) bytes } in
      (clint_bus_access a c bus_write_access address bytes (length bytes) ≡ some (rv_ok, c', bytes))
      × (clint_bus_access a c' bus_read_access address buf (length bytes)
          ≡ some (rv_ok, c', splice buf 0 bytes))
      × IsClint c'
unfolding clint_bus_access
clint_write-read a c address offs bytes buf h e inside =
    let room = offs-le a address offs e in
    let size = length-splice c.regs (address % 8 + offs) bytes in
    let back = take-drop-splice c.regs (address % 8 + offs) bytes (omega (arith, room, h)) in
    (
      ground (arith, room, h, e, take-length_self bytes),
      ground (arith, room, h, e, back, size),
      size ∙ h,
    )
