-- ===== src/Pmp/Check.antt =====
-- `pmp_mem_check` of src/core/pmp/pmp.c.
use riscv_em.Base.{
  ℕ, zero, suc, ◌+◌, ◌-◌, ◌*◌, ◌/◌, ◌%◌, ◌^◌, Bool, true, false, not, ◌&&◌, ltb, ◌==◌,
  if◌then◌else◌, Option, none, some, bit_and, get_or,
}
use riscv_em.Base.Words.{wrap, sub_word, complement}
use riscv_em.Types.{
  Arch, xlen, xlen_bytes, RvRet, rv_ok, rv_err, PrivilegeLevel, BusAccessType, access_number,
}
use riscv_em.Helper.{check_bit, extract, addr_within}
use riscv_em.Pmp.Csr.{Pmp, l_bit, a_bit_offs, a_off, a_tor, a_napot, is_machine}

-- `__builtin_ffsl` on a word of at most `fuel` bits: one more than the position of the first set
-- bit, or 0.
unfoldable pub find_first_bit_set : ℕ → ℕ → ℕ
find_first_bit_set zero x = 0
find_first_bit_set (suc fuel) x =
    let rest = find_first_bit_set fuel (x / 2) in
    if x % 2 == 1 then 1 else if rest == 0 then 0 else rest + 1

-- `1 << n` in `int`: undefined from bit 31 on.
abbrev pub int_bit : ℕ → Option ℕ
int_bit n = if ltb n 31 then some (2 ^ n) else none

abbrev pub to_ret : Bool → RvRet
to_ret true = rv_ok
to_ret false = rv_err

-- What one entry says of an access: nothing, the answer, or undefined behaviour.
pub data Verdict : Type 0 where
  next undefined : Verdict
  answer : RvRet → Verdict

-- A region is a start and a size; `none` is an undefined shift.
abbrev pub Region : Type 0
Region = Option (ℕ × ℕ)

module _ (a : Arch) where
  -- `x << 2` in `rv_uint_xlen`
  abbrev pub shl_two : ℕ → ℕ
  shl_two x = wrap (xlen a) (x * 4)

  abbrev pub get_pmp_napot_size_from_pmpaddr : ℕ → Option ℕ
  get_pmp_napot_size_from_pmpaddr addr =
      int_bit (find_first_bit_set (xlen a) (complement (xlen a) addr) + 2)

  -- `get_pmp_napot_addr_from_pmpaddr`, given the size that it computes first
  abbrev pub get_pmp_napot_addr_from_pmpaddr : ℕ → ℕ → ℕ
  get_pmp_napot_addr_from_pmpaddr addr size = shl_two (sub_word (xlen a) addr ((size / 2 - 1) / 4))

  -- The `switch` over the matching modes; `mode` is not 0 here.
  unfoldable pub region : Pmp → ℕ → ℕ → Region
  region pmp mode count =
      let here = get_or pmp.addr count 0 in
      if mode == a_tor
      then if count == 0
        then some (0, shl_two here)
        else (let start = shl_two (get_or pmp.addr (count - 1) 0) in
            some (start, sub_word (xlen a) (shl_two here) start))
      else if mode == a_napot
      then if here == 2 ^ xlen a - 1
        then some (0, 2 ^ xlen a - 1)
        else elim (get_pmp_napot_size_from_pmpaddr here) [
          | none ↦ none
          | some size ↦ some (get_pmp_napot_addr_from_pmpaddr here size, size)
        ]
      else some (shl_two here, 4)

  module _ (pmp : Pmp) (curr_priv : PrivilegeLevel) (addr len : ℕ) (access : BusAccessType) where
    abbrev pub addr_end : ℕ
    addr_end = wrap (xlen a) (addr + 2 ^ xlen a + len - 1)

    -- The answer from which ends of the access lie in the region.
    abbrev pub verdict : Bool → Bool → Bool → Verdict
    verdict true true allowed = answer (to_ret allowed)
    verdict true false allowed = answer (to_ret (is_machine curr_priv && allowed))
    verdict false true allowed = answer (to_ret (is_machine curr_priv && allowed))
    verdict false false allowed = next

    abbrev pub in_region : Region → Bool → Verdict
    in_region none allowed = undefined
    in_region (some (start, size)) allowed =
        verdict (addr_within (xlen a) addr start size) (addr_within (xlen a) addr_end start size)
          allowed

    -- The body of the loops, for the entry `count`.
    unfoldable pub check_entry : ℕ → Verdict
    check_entry count =
        let cfg_byte = get_or pmp.cfg count 0 in
        let mode = extract 8 cfg_byte a_bit_offs 2 in
        let allowed = not (bit_and (2 ^ access_number access) (bit_and cfg_byte 0x7) == 0) in
        if is_machine curr_priv && not (check_bit cfg_byte l_bit)
        then next
        else if mode == a_off
        then next
        else in_region (region pmp mode count) allowed

    -- The inner loop over the bytes of one register, at entry `count` with `n` to go.
    unfoldable pub entry_loop : ℕ → ℕ → Verdict
    entry_loop zero count = next
    entry_loop (suc n) count =
        let rest = entry_loop n (count + 1) in
        elim (check_entry count) [ next ↦ rest | undefined ↦ undefined | answer r ↦ answer r ]

    -- The outer loop over the registers, at register `i` with `n` to go.
    unfoldable pub reg_loop : ℕ → ℕ → Verdict
    reg_loop zero i = next
    reg_loop (suc n) i =
        let rest = reg_loop n (i + 1) in
        elim (entry_loop (xlen_bytes a) (i * xlen_bytes a)) [
          | next ↦ rest
          | undefined ↦ undefined
          | answer r ↦ answer r
        ]

    -- `none` is undefined behaviour. There are 16 bytes of configuration.
    unfoldable pub pmp_mem_check : Option RvRet
    pmp_mem_check = elim (reg_loop (16 / xlen_bytes a) 0) [
      | next ↦ some (to_ret (is_machine curr_priv))
      | undefined ↦ none
      | answer r ↦ some r
    ]
