-- ===== src/Tests/PlicRuns.antt =====
-- src/peripherals/plic/plic.c on a concrete controller.
use riscv_em.Base.{◌≡◌, refl, true, some, [], ◌∷◌, replicate}
use riscv_em.Types.{rv32, rv_ok, bus_write_access}
use riscv_em.Helper.{check_bit, assign_bit, addr_within}
use riscv_em.Plic.{
  Plic, get_u8_reg_ptr, plic_check_sanity, plic_update_pending, plic_update, plic_bus_access,
  scan_bit, bit_loop, enable_loop,
}
use riscv_em.Plic.Laws.{IsAnswer, plic_update-IsRaised}

-- The interrupts 3 (of priority 2), 4 (of priority 5) and 5 (claimed) are enabled and pending.
abbrev controller : Plic
controller = record {
  priority = 0 ∷ (0 ∷ (0 ∷ (2 ∷ (5 ∷ (7 ∷ replicate 250 0)))));
  pending_bits = 0x38 ∷ replicate 7 0;
  enable_bits = 0x38 ∷ replicate 7 0;
  priority_threshold = 1;
  claim_complete = 0;
  claimed_bits = 0x20 ∷ replicate 7 0;
}

-- The interrupt of the highest priority that is not claimed is chosen, and the claimed one is no
-- longer pending.
update_runs :
    plic_update controller
    ≡ (true, record controller { claim_complete = 4; pending_bits = 0x18 ∷ replicate 7 0 })
unfolding plic_update enable_loop bit_loop scan_bit check_bit assign_bit
update_runs = refl

plic_update-IsRaised_example : IsAnswer (plic_update controller)
plic_update-IsRaised_example = plic_update-IsRaised controller

-- The pending bit of an interrupt is set.
pending_runs :
    plic_update_pending controller 33 1
    ≡ some (record controller { pending_bits = 0x38 ∷ (2 ∷ replicate 6 0) })
unfolding plic_update_pending assign_bit
pending_runs = refl

-- A write of the threshold keeps three bits.
threshold_runs :
    plic_bus_access rv32 controller bus_write_access 0x200000 (0x0C ∷ (0 ∷ (0 ∷ (0 ∷ [])))) 4
    ≡ some (rv_ok, record controller { priority_threshold = 4 }, 0x0C ∷ (0 ∷ (0 ∷ (0 ∷ []))))
unfolding plic_bus_access get_u8_reg_ptr plic_check_sanity addr_within
threshold_runs = refl
