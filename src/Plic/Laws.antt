-- ===== src/Plic/Laws.antt =====
-- What the loops of `plic_update` in src/peripherals/plic/plic.c find.
use riscv_em.Base.{
  ℕ, zero, suc, ◌+◌, ◌%◌, ◌^◌, ◌<◌, ◌≡◌, ◌≢◌, refl, sym, ap, ◌∙◌, ◌⊎◌, inl, inr, Bool, true, false,
  ◌&&◌, ◌||◌, leb, ltb, ◌==◌, if◌then◌else◌, List, [], ◌∷◌, set, get_or, arith,
}
use riscv_em.Base.Bits.{
  test_bit, test_bit-mod, test_bit-bit_or, test_bit-bit_and, test_bit-complement, test_bit-pow,
  test_bit-zero,
}
use riscv_em.Base.Words.{wrap, pow-lt_of_lt}
use riscv_em.Helper.{check_bit, assign_bit}
use riscv_em.Helper.Laws.{check_bit-eq-test_bit}
use riscv_em.Plic.{Plic, Scan, scan_bit, bit_loop, enable_loop, scanned, plic_update}

check_bit-assign_bit_ne :
    (x n d : ℕ) → n < 32 → d < 32 → n ≢ d → check_bit (assign_bit 32 x n 0) d ≡ check_bit x d
unfolding assign_bit
check_bit-assign_bit_ne x n d hn hd ne =
    check_bit-eq-test_bit (assign_bit 32 x n 0) d ∙ same ∙ sym (check_bit-eq-test_bit x d)
  where
    same : test_bit (assign_bit 32 x n 0) d ≡ test_bit x d
    same =
        rw (test_bit-mod, test_bit-bit_or, test_bit-bit_and)
          (ground (
            arith,
            test_bit-complement (2 ^ n) 64 d (pow-lt_of_lt n 64 (omega arith)),
            test_bit-pow n d,
            test_bit-zero d,
          ))

check_bit-set_ne :
    (xs : List ℕ) (i k n d : ℕ)
    → n < 32
    → d < 32
    → (i ≡ k → n ≢ d)
    → check_bit (get_or (set xs i (assign_bit 32 (get_or xs i 0) n 0)) k 0) d
      ≡ check_bit (get_or xs k 0) d
check_bit-set_ne [] i k n d hn hd ne = refl
check_bit-set_ne (x ∷ xs) zero zero n d hn hd ne = check_bit-assign_bit_ne x n d hn hd (ne refl)
check_bit-set_ne (x ∷ xs) zero (suc k) n d hn hd ne = refl
check_bit-set_ne (x ∷ xs) (suc i) zero n d hn hd ne = refl
check_bit-set_ne (x ∷ xs) (suc i) (suc k) n d hn hd ne =
    check_bit-set_ne xs i k n d hn hd λ e. ne (ap suc e)

-- The interrupt `id` may be raised, by its digit in the register `reg`.
pub record IsRaised (p : Plic) (id : ℕ) : Type 0 where
  pub reg : ℕ
  pub enabled : check_bit (get_or p.enable_bits reg 0) (id % 32) ≡ true
  pub pending : check_bit (get_or p.pending_bits reg 0) (id % 32) ≡ true
  pub unclaimed : check_bit (get_or p.claimed_bits reg 0) (id % 32) ≡ false
  pub reached : leb p.priority_threshold (get_or p.priority id 0) ≡ true

abbrev IsSound : Scan → Type 0
IsSound s = (s.irq_to_trigger ≡ 0) ⊎ IsRaised s.plic s.irq_to_trigger

module _ (i j : ℕ) (s : Scan) (digit : s.irq_id_count % 32 ≡ j) where
  abbrev counted : Scan
  counted = record s { irq_id_count = s.irq_id_count + 1 }

  -- A digit of a claimed interrupt is cleared.
  abbrev cleared : Plic
  cleared =
      let p = s.plic in
      record p {
        pending_bits = set p.pending_bits i (assign_bit 32 (get_or p.pending_bits i 0) j 0);
      }

  IsRaised-cleared :
      check_bit (get_or s.plic.claimed_bits i 0) j ≡ true
      → IsRaised s.plic s.irq_to_trigger
      → IsRaised cleared s.irq_to_trigger
  IsRaised-cleared claimed r = record {
    reg = r.reg;
    enabled = r.enabled;
    pending =
        check_bit-set_ne s.plic.pending_bits i r.reg j (s.irq_to_trigger % 32) (omega arith)
          (omega arith) (λ e f. cc)
        ∙ r.pending;
    unclaimed = r.unclaimed;
    reached = r.reached;
  }

  IsRaised-found :
      check_bit (get_or s.plic.enable_bits i 0) j ≡ true
      → check_bit (get_or s.plic.pending_bits i 0) j ≡ true
      → leb s.plic.priority_threshold (get_or s.plic.priority s.irq_id_count 0) ≡ true
      → check_bit (get_or s.plic.claimed_bits i 0) j ≡ false
      → IsRaised s.plic s.irq_id_count
  IsRaised-found e p t c = record {
    reg = i;
    enabled = ap (check_bit (get_or s.plic.enable_bits i 0)) digit ∙ e;
    pending = ap (check_bit (get_or s.plic.pending_bits i 0)) digit ∙ p;
    unclaimed = ap (check_bit (get_or s.plic.claimed_bits i 0)) digit ∙ c;
    reached = t;
  }

  scan_bit-IsSound : IsSound s → IsSound (scan_bit i j s)
  unfolding scan_bit
  scan_bit-IsSound sound =
      by_tests (check_bit (get_or s.plic.enable_bits i 0) j)
        (check_bit (get_or s.plic.pending_bits i 0) j)
        (leb s.plic.priority_threshold (get_or s.plic.priority s.irq_id_count 0))
        (check_bit (get_or s.plic.claimed_bits i 0) j)
        (leb s.highest_prio (get_or s.plic.priority s.irq_id_count 0)) refl refl refl refl
    where
      kept : IsSound counted
      kept = elim sound [ inl z ↦ inl z | inr r ↦ inr r ]

      by_tests :
          (e p t c h : Bool)
          → check_bit (get_or s.plic.enable_bits i 0) j ≡ e
          → check_bit (get_or s.plic.pending_bits i 0) j ≡ p
          → leb s.plic.priority_threshold (get_or s.plic.priority s.irq_id_count 0) ≡ t
          → check_bit (get_or s.plic.claimed_bits i 0) j ≡ c
          → IsSound (
              if e && p && t
              then (if c
                  then record counted { plic = cleared }
                  else if h
                  then record counted {
                    highest_prio = wrap 8 (get_or s.plic.priority s.irq_id_count 0);
                    irq_to_trigger = s.irq_id_count;
                  }
                  else counted)
              else counted)
      by_tests false p t c h he hp ht hc = kept
      by_tests true false t c h he hp ht hc = kept
      by_tests true true false c h he hp ht hc = kept
      by_tests true true true true h he hp ht hc = elim sound [
        | inl z ↦ inl z
        | inr r ↦ inr (IsRaised-cleared hc r)
      ]
      by_tests true true true false true he hp ht hc = inr (IsRaised-found he hp ht hc)
      by_tests true true true false false he hp ht hc = kept

scan_bit-count : (i j : ℕ) (s : Scan) → (scan_bit i j s).irq_id_count ≡ s.irq_id_count + 1
unfolding scan_bit
scan_bit-count i j s = ground arith

-- The inner loop, which ends where the count is again a multiple of 32
bit_loop-IsSound :
    (i n j : ℕ) (s : Scan)
    → j + n ≡ 32
    → s.irq_id_count % 32 ≡ j % 32
    → IsSound s
    → IsSound (bit_loop i n j s) × ((bit_loop i n j s).irq_id_count % 32 ≡ 0)
unfolding bit_loop
bit_loop-IsSound i zero j s total digit sound = (sound, omega arith)
bit_loop-IsSound i (suc n) j s total digit sound =
    bit_loop-IsSound i n (j + 1) (scan_bit i j s) (omega arith)
      (ap (λ k. k % 32) (scan_bit-count i j s) ∙ omega arith)
      (scan_bit-IsSound i j s (omega arith) sound)

enable_loop-IsSound :
    (n i : ℕ) (s : Scan) → s.irq_id_count % 32 ≡ 0 → IsSound s → IsSound (enable_loop n i s)
unfolding enable_loop
enable_loop-IsSound zero i s digit sound = sound
enable_loop-IsSound (suc n) i s digit sound =
    by_test (get_or s.plic.enable_bits i 0 == 0 || get_or s.plic.pending_bits i 0 == 0)
      (λ r. enable_loop-IsSound n (i + 1) r)
  where
    by_test :
        (b : Bool)
        → ((r : Scan) → r.irq_id_count % 32 ≡ 0 → IsSound r → IsSound (enable_loop n (i + 1) r))
        → IsSound (enable_loop n (i + 1) (if b then s else bit_loop i 32 0 s))
    by_test true rest = rest s digit sound
    by_test false rest =
        let (found, count) = bit_loop-IsSound i 32 0 s (omega arith) digit sound in
        rest (bit_loop i 32 0 s) count found

-- What an answer of `plic_update` promises
abbrev pub IsAnswer : Bool × Plic → Type 0
IsAnswer (raised, q) =
    ((raised ≡ true) × IsRaised q q.claim_complete) ⊎ ((raised ≡ false) × (q.claim_complete ≡ 0))

-- `plic_update` either raises an interrupt, and the one in the claim register then is enabled,
-- pending and not claimed by its digit in one of the registers, with a priority that is not below
-- the threshold; or it raises none and clears the claim register.
pub plic_update-IsRaised : (p : Plic) → IsAnswer (plic_update p)
unfolding plic_update
plic_update-IsRaised p = by_test (ltb 0 (scanned p).irq_to_trigger) refl (
    enable_loop-IsSound 8 0
      (record { plic = p; irq_id_count = 0; irq_to_trigger = 0; highest_prio = 0 }) refl (inl refl))
  where
    taken : Plic
    taken = let q = (scanned p).plic in record q { claim_complete = (scanned p).irq_to_trigger }

    none_taken : Plic
    none_taken = let q = (scanned p).plic in record q { claim_complete = 0 }

    by_test :
        (b : Bool)
        → ltb 0 (scanned p).irq_to_trigger ≡ b
        → IsSound (scanned p)
        → IsAnswer (if◌then◌else◌ {A = Bool × Plic} b (true, taken) (false, none_taken))
    by_test false h sound = inr (refl, refl)
    by_test true h (inl z) = absurd (ground arith)
    by_test true h (inr r) = inl (
      refl,
      record {
        reg = r.reg;
        enabled = r.enabled;
        pending = r.pending;
        unclaimed = r.unclaimed;
        reached = r.reached;
      },
    )
