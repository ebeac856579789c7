-- ===== src/Tests/ClintRuns.antt =====
-- The interruptor of src/peripherals/clint/clint.c, with a comparator of 1000 and the time at 999.
use riscv_em.Base.{
  ℕ, ◌+◌, ◌%◌, ◌^◌, ◌≡◌, refl, leb, if◌then◌else◌, some, List, [], ◌∷◌, ◌++◌, length, to_bytes,
  arith,
}
use riscv_em.Base.Memory.{splice}
use riscv_em.Types.{rv32, rv_ok, bus_read_access, bus_write_access}
use riscv_em.Helper.{addr_within}
use riscv_em.Clint.{Clint, reg, get_u8_arr_index_offs, clint_bus_access, clint_update}
use riscv_em.Clint.Laws.{IsClint, clint_update_lem, clint_write-read}

abbrev waiting : Clint
waiting = record { regs = to_bytes 8 1 ++ to_bytes 8 1000 ++ to_bytes 8 999 }

clint_update_lem_example :
    let (c', msi, mti) = clint_update waiting in
    (reg c' 2 ≡ (reg waiting 2 + 1) % 2 ^ 64)
    × (reg c' 1 ≡ reg waiting 1)
    × (reg c' 0 ≡ reg waiting 0)
    × (msi ≡ reg waiting 0 % 2)
    × (mti ≡ (if leb (reg waiting 1) ((reg waiting 2 + 1) % 2 ^ 64) then 1 else 0))
    × IsClint c'
clint_update_lem_example = clint_update_lem waiting refl

comparator_offs : get_u8_arr_index_offs rv32 0x4004 ≡ some 8
unfolding get_u8_arr_index_offs addr_within
comparator_offs = refl

-- Four bytes into the upper half of the comparator.
clint_write-read_example :
    let bytes : List ℕ = 1 ∷ (2 ∷ (3 ∷ (4 ∷ []))) in
    let c' : Clint = record { regs = splice waiting.regs (0x4004 % 8 + 8) bytes } in
    (clint_bus_access rv32 waiting bus_write_access 0x4004 bytes (length bytes)
      ≡ some (rv_ok, c', bytes))
    × (clint_bus_access rv32 c' bus_read_access 0x4004 (0 ∷ []) (length bytes)
        ≡ some (rv_ok, c', splice (0 ∷ []) 0 bytes))
    × IsClint c'
clint_write-read_example =
    clint_write-read rv32 waiting 0x4004 8 (1 ∷ (2 ∷ (3 ∷ (4 ∷ [])))) (0 ∷ []) refl comparator_offs
      (omega arith)
