-- ===== src/Pmp/Trace.antt =====
-- Sequences of register writes (the callbacks of src/core/pmp/pmp.c): a lock lasts.
use riscv_em.Base.{
  ℕ, suc, ◌+◌, ◌*◌, ◌/◌, ◌%◌, ◌<◌, ◌≡◌, refl, ◌∙◌, Bool, true, not, ◌||◌, if◌then◌else◌, List, [],
  ◌∷◌, get_or, set, length-set, get_or-set_ne, arith,
}
use riscv_em.Base.Bits.{test_bit}
use riscv_em.Types.{Arch, rv32, rv64, xlen_bytes, PrivilegeLevel}
use native.Mathlib.Numerals.{add-one}
use riscv_em.Helper.{check_bit, extract}
use riscv_em.Helper.Laws.{check_bit-eq-test_bit}
use riscv_em.Pmp.Csr.{
  Pmp, is_machine, struct_byte, next_is_locked_tor, pmp_write_csr_cfg, pmp_write_csr_addr,
}
use riscv_em.Pmp.Locked.{IsWellFormed, pmp_write_csr_cfg_lem}

-- A write of a protection register, from a privilege level.
pub data Write : Type 0 where
  write_cfg write_addr : PrivilegeLevel → (reg_index csr_val : ℕ) → Write

-- The registers that the two callbacks are installed for.
abbrev pub InRange : Arch → Write → Type 0
InRange a (write_cfg priv r v) = r < 16 / xlen_bytes a
InRange a (write_addr priv r v) = r < 16

abbrev pub AllInRange : Arch → List Write → Type 0
AllInRange a [] = Unit
AllInRange a (w ∷ ws) = InRange a w × AllInRange a ws

unfoldable pub apply : Arch → Pmp → Write → Pmp
apply a pmp (write_cfg priv r v) = (pmp_write_csr_cfg a pmp priv r v).1
apply a pmp (write_addr priv r v) = (pmp_write_csr_addr a pmp priv r v).1

unfoldable pub apply_all : Arch → Pmp → List Write → Pmp
apply_all a pmp [] = pmp
apply_all a pmp (w ∷ ws) = apply_all a (apply a pmp w) ws

-- Entry `k`, its address and, in TOR mode, its lower bound are those of `pmp`.
pub record IsKept (pmp pmp' : Pmp) (k : ℕ) : Type 0 where
  pub cfg_kept : get_or pmp'.cfg k 0 ≡ get_or pmp.cfg k 0
  pub addr_kept : get_or pmp'.addr k 0 ≡ get_or pmp.addr k 0
  pub lower_kept :
      (j : ℕ)
      → suc j ≡ k
      → extract 8 (get_or pmp.cfg k 0) 3 2 ≡ 1
      → get_or pmp'.addr j 0 ≡ get_or pmp.addr j 0

abbrev IsLocked : Pmp → ℕ → Type 0
IsLocked pmp k = test_bit (get_or pmp.cfg k 0) 7 ≡ true

-- The test on which the code leaves the address registers alone.
abbrev is_blocked : Arch → Pmp → PrivilegeLevel → ℕ → Bool
is_blocked a pmp priv r =
    let base = r / xlen_bytes a * xlen_bytes a in
    let cfg_idx = r % xlen_bytes a in
    not (is_machine priv)
    || next_is_locked_tor a pmp base cfg_idx
    || check_bit (struct_byte a pmp (base + cfg_idx)) 7

addr_write :
    (a : Arch) (pmp : Pmp) (priv : PrivilegeLevel) (r v : ℕ)
    → (pmp_write_csr_addr a pmp priv r v).1
      ≡ (if is_blocked a pmp priv r then pmp else record pmp { addr = set pmp.addr r v })
unfolding pmp_write_csr_addr
addr_write a pmp priv r v = ground arith

whole_index : (a : Arch) (r : ℕ) → r / xlen_bytes a * xlen_bytes a + r % xlen_bytes a ≡ r
whole_index rv32 r = omega arith
whole_index rv64 r = omega arith

cfg_idx-lt : (a : Arch) (r : ℕ) → r % xlen_bytes a < 15
cfg_idx-lt rv32 r = omega arith
cfg_idx-lt rv64 r = omega arith

blocked_by_lock :
    (a : Arch) (pmp : Pmp) (priv : PrivilegeLevel) (r : ℕ)
    → r < 16
    → IsLocked pmp r
    → is_blocked a pmp priv r ≡ true
blocked_by_lock a pmp priv r h locked =
    rw (whole_index a r) (ground (arith, check_bit-eq-test_bit (get_or pmp.cfg r 0) 7))

blocked_by_next :
    (a : Arch) (pmp : Pmp) (priv : PrivilegeLevel) (r : ℕ)
    → suc r < 16
    → IsLocked pmp (suc r)
    → extract 8 (get_or pmp.cfg (suc r) 0) 3 2 ≡ 1
    → is_blocked a pmp priv r ≡ true
blocked_by_next a pmp priv r h locked tor =
    rw (whole_index a r, add-one)
      (ground (arith, cfg_idx-lt a r, check_bit-eq-test_bit (get_or pmp.cfg (suc r) 0) 7))

apply-IsWellFormed :
    (a : Arch) (pmp : Pmp) (w : Write)
    → IsWellFormed pmp
    → InRange a w
    → IsWellFormed (apply a pmp w)
unfolding apply
apply-IsWellFormed a pmp (write_cfg priv r v) wf h = (pmp_write_csr_cfg_lem a pmp priv r v 0 wf h).3
apply-IsWellFormed a pmp (write_addr priv r v) wf h =
    rw (addr_write a pmp priv r v) (ground (arith, length-set pmp.addr r v))

apply-IsKept :
    (a : Arch) (pmp : Pmp) (w : Write) (k : ℕ)
    → IsWellFormed pmp
    → InRange a w
    → k < 16
    → IsLocked pmp k
    → IsKept pmp (apply a pmp w) k
unfolding apply
apply-IsKept a pmp (write_cfg priv r v) k wf h hk locked =
    let (_, at_k, same, _) = pmp_write_csr_cfg_lem a pmp priv r v k wf h in
    record {
      cfg_kept = ground (arith, at_k);
      addr_kept = rw same refl;
      lower_kept = λ j e tor. rw same refl;
    }
apply-IsKept a pmp (write_addr priv r v) k wf h hk locked = rw (addr_write a pmp priv r v) (record {
  cfg_kept = ground arith;
  addr_kept = ground (arith, get_or-set_ne pmp.addr r k v 0, λ (e : r ≡ k). own e);
  lower_kept =
      λ j e tor. ground (arith, get_or-set_ne pmp.addr r j v 0, λ (f : r ≡ j). below j e tor f);
})
  where
    own : r ≡ k → is_blocked a pmp priv r ≡ true
    own e = blocked_by_lock a pmp priv r h (rw e locked)

    below :
        (j : ℕ)
        → suc j ≡ k
        → extract 8 (get_or pmp.cfg k 0) 3 2 ≡ 1
        → r ≡ j
        → is_blocked a pmp priv r ≡ true
    below j e tor f =
        let at_next : suc r ≡ k = omega arith in
        blocked_by_next a pmp priv r (omega arith) (rw at_next locked) (rw at_next tor)

-- A locked entry lasts: whatever the later writes of existing registers are, from any level, its
-- configuration, its address and, in TOR mode, its lower bound stay as they are.
pub apply_all-IsKept :
    (a : Arch) (pmp : Pmp) (ws : List Write) (k : ℕ)
    → IsWellFormed pmp
    → AllInRange a ws
    → k < 16
    → test_bit (get_or pmp.cfg k 0) 7 ≡ true
    → IsKept pmp (apply_all a pmp ws) k
unfolding apply_all
apply_all-IsKept a pmp [] k wf h hk locked = record {
  cfg_kept = refl;
  addr_kept = refl;
  lower_kept = λ j e tor. refl;
}
apply_all-IsKept a pmp (w ∷ ws) k wf h hk locked =
    let kept = apply-IsKept a pmp w k wf h.0 hk locked in
    let later =
      apply_all-IsKept a (apply a pmp w) ws k (apply-IsWellFormed a pmp w wf h.0) h.1 hk
        (rw kept.cfg_kept locked) in
    record {
      cfg_kept = later.cfg_kept ∙ kept.cfg_kept;
      addr_kept = later.addr_kept ∙ kept.addr_kept;
      lower_kept = λ j e tor. later.lower_kept j e (rw kept.cfg_kept tor) ∙ kept.lower_kept j e tor;
    }
