-- ===== src/Tests/PmpRuns.antt =====
-- The protection unit of src/core/pmp/pmp.c on RV32.
use riscv_em.Base.{
  ℕ, zero, suc, ◌/◌, ◌%◌, ◌<◌, ◌≡◌, refl, not, ◌&&◌, ◌==◌, if◌then◌else◌, some, [], ◌∷◌, replicate,
  get_or, set, byte_of, arith,
}
use riscv_em.Base.Bits.{test_bit}
use riscv_em.Types.{rv32, rv_ok, rv_err, user_mode, machine_mode, bus_read_access, bus_write_access}
use riscv_em.Helper.{extract}
use riscv_em.Pmp.Csr.{Pmp, is_machine, pmp_write_csr_cfg, pmp_write_csr_addr}
use riscv_em.Pmp.Check.{region, to_ret, pmp_mem_check}
use riscv_em.Pmp.Napot.{Covers, napot, region_of_Covers}
use riscv_em.Pmp.Locked.{
  IsWellFormed, addr_locked, pmp_write_csr_cfg_lem, pmp_write_csr_addr_lem, pmp_write_csr_addr_last,
}
use riscv_em.Pmp.Trace.{IsKept, write_cfg, write_addr, apply_all, apply_all-IsKept}
use riscv_em.Pmp.Priority.{
  IsAccess, IsSkipped, IsMatched, apart, off, matched_answer, pmp_mem_check_first,
  pmp_mem_check_none,
}

-- Entry 0: 16 bytes from 0x1000, read only, locked, NAPOT. Entry 1 is off.
abbrev rom : Pmp
rom = record { cfg = 0x99 ∷ replicate 15 0; addr = 0x401 ∷ replicate 15 0 }

rom-IsWellFormed : IsWellFormed rom
rom-IsWellFormed = record { cfg_length = refl; addr_length = refl }

rom-Covers : Covers rv32 rom 3 0 0x1000 0x1010
rom-Covers = napot 0x100 1 refl (omega arith) refl refl (omega arith)

region_of_Covers_example : region rv32 rom 3 0 ≡ some (0x1000, 0x10)
region_of_Covers_example = region_of_Covers rv32 rom rom-Covers

four_bytes : IsAccess rv32 0x1004 4
four_bytes = record { nonempty = omega arith; no_wrap = omega arith }

elsewhere : IsAccess rv32 0x2000 4
elsewhere = record { nonempty = omega arith; no_wrap = omega arith }

rom-IsMatched : IsMatched rv32 rom machine_mode 0x1004 4 0
rom-IsMatched = record {
  lo = 0x1000;
  hi = 0x1010;
  counted = refl;
  covers = rom-Covers;
  touches = refl;
}

-- The write of a locked read-only region fails in machine mode too.
pmp_mem_check_first_example :
    pmp_mem_check rv32 rom machine_mode 0x1004 4 bus_write_access
    ≡ some (matched_answer rv32 rom machine_mode 0x1004 4 bus_write_access four_bytes rom-IsMatched)
pmp_mem_check_first_example =
    pmp_mem_check_first rv32 rom machine_mode 0x1004 4 bus_write_access four_bytes 0 rom-IsMatched
      (omega arith) (λ j h. absurd (omega arith))

rom-IsSkipped : (j : ℕ) → j < 16 → IsSkipped rv32 rom user_mode 0x2000 4 j
rom-IsSkipped zero h = apart rom-Covers refl refl
rom-IsSkipped (suc j) h = off (rest_off 15 j)
  where
    rest_off : (n j : ℕ) → get_or (replicate n 0) j 0 / 8 % 4 ≡ 0
    rest_off zero j = refl
    rest_off (suc n) zero = refl
    rest_off (suc n) (suc j) = rest_off n j

pmp_mem_check_none_example :
    pmp_mem_check rv32 rom user_mode 0x2000 4 bus_read_access ≡ some (to_ret (is_machine user_mode))
pmp_mem_check_none_example =
    pmp_mem_check_none rv32 rom user_mode 0x2000 4 bus_read_access elsewhere rom-IsSkipped

apply_all-IsKept_example :
    IsKept rom
      (apply_all rv32 rom (write_cfg machine_mode 0 0 ∷ (write_addr machine_mode 0 5 ∷ [])))
      0
apply_all-IsKept_example =
    apply_all-IsKept rv32 rom (write_cfg machine_mode 0 0 ∷ (write_addr machine_mode 0 5 ∷ [])) 0
      rom-IsWellFormed (omega arith, (omega arith, tt)) (omega arith) refl

pmp_write_csr_cfg_lem_example :
    let (ret, rom') = pmp_write_csr_cfg rv32 rom machine_mode 0 0x0F0F in
    (ret ≡ (if is_machine machine_mode then rv_ok else rv_err))
    × (get_or rom'.cfg 1 0 ≡ (
        if is_machine machine_mode && 1 / 4 == 0 && not (test_bit (get_or rom.cfg 1 0) 7)
        then byte_of 0x0F0F (1 % 4)
        else get_or rom.cfg 1 0))
    × (rom'.addr ≡ rom.addr)
    × IsWellFormed rom'
pmp_write_csr_cfg_lem_example =
    pmp_write_csr_cfg_lem rv32 rom machine_mode 0 0x0F0F 1 rom-IsWellFormed (omega arith)

pmp_write_csr_addr_lem_example : pmp_write_csr_addr rv32 rom machine_mode 1 0x800 ≡ (
  (if is_machine machine_mode then rv_ok else rv_err),
  (if is_machine machine_mode && not (addr_locked rom 1)
      then record rom { addr = set rom.addr 1 0x800 }
      else rom),
)
pmp_write_csr_addr_lem_example = pmp_write_csr_addr_lem rv32 rom machine_mode 1 0x800 (omega arith)

-- The lowest byte of the first address looks like a locked TOR entry.
abbrev confusing : Pmp
confusing = record { cfg = replicate 16 0; addr = 0x488 ∷ replicate 15 0 }

looks_like_tor : extract 8 (get_or confusing.addr 0 0 % 256) 3 2 ≡ 1
unfolding extract
looks_like_tor = refl

pmp_write_csr_addr_last_example :
    pmp_write_csr_addr rv32 confusing machine_mode 15 0x800 ≡ (rv_ok, confusing)
pmp_write_csr_addr_last_example = pmp_write_csr_addr_last rv32 confusing 0x800 looks_like_tor refl
