-- ===== src/Pmp/Locked.antt =====
-- What writes of the protection registers change (src/core/pmp/pmp.c).
use riscv_em.Base.{
  ℕ, zero, suc, ◌+◌, ◌-◌, ◌*◌, ◌/◌, ◌%◌, ◌≤◌, ◌<◌, ◌≡◌, refl, ◌∙◌, Bool, true, not, ◌&&◌, ◌||◌,
  ◌==◌, ltb, leb, if◌then◌else◌, Bool-cases, ==_iff, inl, inr, List, get_or, set, length,
  length-set, get_or-set_self, get_or-set_ne, byte_of, arith,
}
use riscv_em.Base.Bits.{test_bit}
use riscv_em.Types.{Arch, rv32, rv64, xlen_bytes, rv_ok, rv_err, PrivilegeLevel, machine_mode}
use riscv_em.Helper.{check_bit, extract}
use riscv_em.Helper.Laws.{check_bit-eq-test_bit}
use riscv_em.Pmp.Csr.{Pmp, is_machine, l_bit, cfg_loop, pmp_write_csr_cfg, pmp_write_csr_addr}

-- One round of the loop.
abbrev write_byte : ℕ → ℕ → ℕ → List ℕ → List ℕ
write_byte base csr_val i cfg =
    if check_bit (get_or cfg (base + i) 0) l_bit
    then cfg
    else set cfg (base + i) (byte_of csr_val i)

length-write_byte :
    (base csr_val i : ℕ) (cfg : List ℕ) → length (write_byte base csr_val i cfg) ≡ length cfg
length-write_byte base csr_val i cfg = ground (arith, length-set cfg (base + i) (byte_of csr_val i))

length-cfg_loop :
    (base csr_val n i : ℕ) (cfg : List ℕ) → length (cfg_loop base csr_val n i cfg) ≡ length cfg
unfolding cfg_loop
length-cfg_loop base csr_val zero i cfg = refl
length-cfg_loop base csr_val (suc n) i cfg =
    length-cfg_loop base csr_val n (i + 1) (write_byte base csr_val i cfg)
    ∙ length-write_byte base csr_val i cfg

get_or-write_byte :
    (base csr_val i k : ℕ) (cfg : List ℕ)
    → base + i < length cfg
    → get_or (write_byte base csr_val i cfg) k 0 ≡ (
        if base + i == k && not (check_bit (get_or cfg k 0) l_bit)
        then byte_of csr_val (k - base)
        else get_or cfg k 0)
get_or-write_byte base csr_val i k cfg h = elim (Bool-cases (base + i == k)) [
  | inl same ↦ hit ((==_iff (base + i) k).0 same)
  | inr other ↦ ground (arith, get_or-set_ne cfg (base + i) k (byte_of csr_val i) 0)
]
  where
    hit :
        base + i ≡ k
        → get_or (write_byte base csr_val i cfg) k 0 ≡ (
            if base + i == k && not (check_bit (get_or cfg k 0) l_bit)
            then byte_of csr_val (k - base)
            else get_or cfg k 0)
    hit e =
        let same : k - base ≡ i = omega arith in
        rw (same, ← e) (ground (arith, get_or-set_self cfg (base + i) (byte_of csr_val i) 0 h))

-- Byte `k` after the loop.
cfg_loop_lem :
    (base csr_val n i k : ℕ) (cfg : List ℕ)
    → base + i + n ≤ length cfg
    → get_or (cfg_loop base csr_val n i cfg) k 0 ≡ (
        if leb (base + i) k && ltb k (base + i + n) && not (check_bit (get_or cfg k 0) l_bit)
        then byte_of csr_val (k - base)
        else get_or cfg k 0)
unfolding cfg_loop
cfg_loop_lem base csr_val zero i k cfg h = ground arith
cfg_loop_lem base csr_val (suc n) i k cfg h =
    cfg_loop_lem base csr_val n (i + 1) k (write_byte base csr_val i cfg)
      (omega (arith, length-write_byte base csr_val i cfg))
    ∙ rw (get_or-write_byte base csr_val i k cfg (omega arith)) (ground arith)

-- The arrays have their sixteen elements.
pub record IsWellFormed (pmp : Pmp) : Type 0 where
  pub cfg_length : length pmp.cfg ≡ 16
  pub addr_length : length pmp.addr ≡ 16

-- A write of a configuration register that exists succeeds in machine mode only, and there gives
-- each unlocked byte of the register its byte of the value; locked bytes, other registers and the
-- addresses stay as they are.
pub pmp_write_csr_cfg_lem :
    (a : Arch) (pmp : Pmp) (priv : PrivilegeLevel) (reg_index csr_val k : ℕ)
    → IsWellFormed pmp
    → reg_index < 16 / xlen_bytes a
    → let (ret, pmp') = pmp_write_csr_cfg a pmp priv reg_index csr_val in
      (ret ≡ (if is_machine priv then rv_ok else rv_err))
      × (get_or pmp'.cfg k 0 ≡ (
          if is_machine priv
            && k / xlen_bytes a == reg_index
            && not (test_bit (get_or pmp.cfg k 0) 7)
          then byte_of csr_val (k % xlen_bytes a)
          else get_or pmp.cfg k 0))
      × (pmp'.addr ≡ pmp.addr)
      × IsWellFormed pmp'
unfolding pmp_write_csr_cfg
pmp_write_csr_cfg_lem rv32 pmp priv reg_index csr_val k wf h =
    let base = reg_index * 4 in
    let at_k = cfg_loop_lem base csr_val 4 0 k pmp.cfg (omega (arith, wf.cfg_length)) in
    let locked = check_bit-eq-test_bit (get_or pmp.cfg k 0) 7 in
    (
      ground arith,
      ground (arith, at_k, locked),
      ground arith,
      ground (arith, length-cfg_loop base csr_val 4 0 pmp.cfg),
    )
pmp_write_csr_cfg_lem rv64 pmp priv reg_index csr_val k wf h =
    let base = reg_index * 8 in
    let at_k = cfg_loop_lem base csr_val 8 0 k pmp.cfg (omega (arith, wf.cfg_length)) in
    let locked = check_bit-eq-test_bit (get_or pmp.cfg k 0) 7 in
    (
      ground arith,
      ground (arith, at_k, locked),
      ground arith,
      ground (arith, length-cfg_loop base csr_val 8 0 pmp.cfg),
    )

-- The address of entry `k` cannot be written: the entry is locked, or the next one is locked and
-- takes its lower bound from it.
abbrev pub addr_locked : Pmp → ℕ → Bool
addr_locked pmp k =
    test_bit (get_or pmp.cfg k 0) 7
    || extract 8 (get_or pmp.cfg (k + 1) 0) 3 2 == 1 && test_bit (get_or pmp.cfg (k + 1) 0) 7

-- A write of one of the first fifteen address registers succeeds in machine mode only, and there
-- changes that register alone, unless its entry is locked or the next entry is locked in TOR mode.
pub pmp_write_csr_addr_lem :
    (a : Arch) (pmp : Pmp) (priv : PrivilegeLevel) (reg_index csr_val : ℕ)
    → reg_index < 15
    → pmp_write_csr_addr a pmp priv reg_index csr_val ≡ (
      (if is_machine priv then rv_ok else rv_err),
      (if is_machine priv && not (addr_locked pmp reg_index)
          then record pmp { addr = set pmp.addr reg_index csr_val }
          else pmp),
    )
unfolding pmp_write_csr_addr
pmp_write_csr_addr_lem rv32 pmp priv reg_index csr_val h =
    let whole : reg_index / 4 * 4 + reg_index % 4 ≡ reg_index = omega arith in
    rw whole (
      ground (
        arith,
        check_bit-eq-test_bit (get_or pmp.cfg reg_index 0) 7,
        check_bit-eq-test_bit (get_or pmp.cfg (reg_index + 1) 0) 7,
      ))
pmp_write_csr_addr_lem rv64 pmp priv reg_index csr_val h =
    let whole : reg_index / 8 * 8 + reg_index % 8 ≡ reg_index = omega arith in
    rw whole (
      ground (
        arith,
        check_bit-eq-test_bit (get_or pmp.cfg reg_index 0) 7,
        check_bit-eq-test_bit (get_or pmp.cfg (reg_index + 1) 0) 7,
      ))

-- The last address register has no next entry; the code looks at the lowest byte of the first
-- address register in its place. If that byte has the lock bit and the bits of TOR mode, a
-- machine-mode write of the last register is dropped, though its own entry may be unlocked.
pub pmp_write_csr_addr_last :
    (a : Arch) (pmp : Pmp) (csr_val : ℕ)
    → extract 8 (get_or pmp.addr 0 0 % 256) 3 2 ≡ 1
    → test_bit (get_or pmp.addr 0 0 % 256) 7 ≡ true
    → pmp_write_csr_addr a pmp machine_mode 15 csr_val ≡ (rv_ok, pmp)
unfolding pmp_write_csr_addr
pmp_write_csr_addr_last rv32 pmp csr_val tor locked =
    ground (arith, check_bit-eq-test_bit (get_or pmp.addr 0 0 % 256) 7)
pmp_write_csr_addr_last rv64 pmp csr_val tor locked =
    ground (arith, check_bit-eq-test_bit (get_or pmp.addr 0 0 % 256) 7)
