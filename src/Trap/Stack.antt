-- ===== src/Trap/Stack.antt =====
-- Taking and leaving a trap (src/core/trap/trap.c): the stack of privilege and enable bits.
use riscv_em.Base.{
  refl, ◌-◌, Bool, ◌||◌, ℕ, ◌+◌, ◌/◌, ◌^◌, ◌<◌, ◌≡◌, false, ◌==◌, if◌then◌else◌, bit_and, arith,
}
use riscv_em.Base.Bits.{test_bit, test_bit-bit_and, test_bit-shr}
use riscv_em.Types.{
  machine_mode, supervisor_mode, PrivilegeLevel, level_number, Arch, xlen, xlen_bounds,
}
use riscv_em.Helper.{assign_bit}
use riscv_em.Helper.Laws.{
  test_bit-assign_bit, test_bit-clear_bit, assign_bit-lt, test_bit-assign_value, assign_value-lt,
  clear_bit-lt,
}
use riscv_em.Trap.Irq.{save_previous, stack_enable, unstack_enable}

module _ (a : Arch) (st level i : ℕ) (fits : st < 2 ^ xlen a) (low : level < 4) where
  -- xIE is cleared, xPIE holds the old xIE, and the other digits stay.
  pub test_bit-stack_enable :
      test_bit (stack_enable a level st) i
      ≡ (if i == level then false else if i == 4 + level then test_bit st level else test_bit st i)
  test_bit-stack_enable =
      let enable = bit_and (st / 2 ^ level) 1 in
      ground (
        arith,
        xlen_bounds a,
        assign_bit-lt (xlen a) st (4 + level) enable,
        test_bit-clear_bit (xlen a) (assign_bit (xlen a) st (4 + level) enable) level i,
        test_bit-assign_bit (xlen a) st (4 + level) enable i,
        test_bit-bit_and (st / 2 ^ level) 1 0,
        test_bit-shr st level 0,
      )

  -- xIE takes xPIE, which is cleared, and the other digits stay.
  pub test_bit-unstack_enable : test_bit (unstack_enable a level st) i ≡ (
      if i == 4 + level
      then false
      else if i == level
      then test_bit st (4 + level)
      else test_bit st i)
  test_bit-unstack_enable =
      let pie = bit_and (st / 2 ^ (4 + level)) 1 in
      ground (
        arith,
        xlen_bounds a,
        assign_bit-lt (xlen a) st level pie,
        test_bit-clear_bit (xlen a) (assign_bit (xlen a) st level pie) (4 + level) i,
        test_bit-assign_bit (xlen a) st level pie i,
        test_bit-bit_and (st / 2 ^ (4 + level)) 1 0,
        test_bit-shr st (4 + level) 0,
      )

-- The field that holds the previous privilege, MPP or SPP; the user level has none.
abbrev pub in_previous_field : PrivilegeLevel → ℕ → Bool
in_previous_field machine_mode i = i == 11 || i == 12
in_previous_field supervisor_mode i = i == 8
in_previous_field _ i = false

abbrev pub previous_field_start : PrivilegeLevel → ℕ
previous_field_start machine_mode = 11
previous_field_start _ = 8

module _ (a : Arch) (st : ℕ) (fits : st < 2 ^ xlen a) (previous : PrivilegeLevel) where
  test_bit-save_previous :
      (serving : PrivilegeLevel) (i : ℕ)
      → test_bit (save_previous a serving previous st) i ≡ (
          if in_previous_field serving i
          then test_bit (level_number previous) (i - previous_field_start serving)
          else test_bit st i)
  test_bit-save_previous machine_mode i =
      ground (
        arith,
        xlen_bounds a,
        test_bit-assign_value (xlen a) st 11 (level_number previous) 2 i fits,
      )
  test_bit-save_previous supervisor_mode i =
      ground
        (arith, xlen_bounds a, test_bit-assign_value (xlen a) st 8 (level_number previous) 1 i fits)
  test_bit-save_previous _ i = refl

  save_previous-lt : (serving : PrivilegeLevel) → save_previous a serving previous st < 2 ^ xlen a
  save_previous-lt machine_mode =
      assign_value-lt (xlen a) st 11 (level_number previous) 2 fits (omega (arith, xlen_bounds a))
  save_previous-lt supervisor_mode =
      assign_value-lt (xlen a) st 8 (level_number previous) 1 fits (omega (arith, xlen_bounds a))
  save_previous-lt _ = fits

-- Digit `i` of the status register when a trap from `previous` is served at `serving`.
abbrev pub served_bit : PrivilegeLevel → PrivilegeLevel → ℕ → ℕ → Bool
served_bit serving previous st i =
    let level = level_number serving in
    if i == level
    then false
    else if i == 4 + level
    then test_bit st level
    else if in_previous_field serving i
    then test_bit (level_number previous) (i - previous_field_start serving)
    else test_bit st i

pub test_bit-served :
    (a : Arch) (st : ℕ) (serving previous : PrivilegeLevel) (i : ℕ)
    → st < 2 ^ xlen a
    → test_bit (stack_enable a (level_number serving) (save_previous a serving previous st)) i
      ≡ served_bit serving previous st i
test_bit-served a st serving previous i fits =
    let saved = save_previous a serving previous st in
    ground (
      arith,
      test_bit-stack_enable a saved (level_number serving) i
          (save_previous-lt a st fits previous serving),
      test_bit-save_previous a st fits previous serving i,
      test_bit-save_previous a st fits previous serving (level_number serving),
    )

pub served-lt :
    (a : Arch) (st : ℕ) (serving previous : PrivilegeLevel)
    → st < 2 ^ xlen a
    → stack_enable a (level_number serving) (save_previous a serving previous st) < 2 ^ xlen a
served-lt a st serving previous fits =
    clear_bit-lt (xlen a) _ (level_number serving)
      (assign_bit-lt (xlen a) (save_previous a serving previous st) (4 + level_number serving) _)
