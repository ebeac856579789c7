-- ===== src/Plic.antt =====
-- src/peripherals/plic/plic.h and plic.c: the platform interrupt controller. The structure is an array
-- of 32-bit words, which the bus copies from and to by bytes; hosts are little-endian. `none` is an
-- access beyond an array.
pub mod Laws
use riscv_em.Base.{
  ℕ, zero, suc, ◌+◌, ◌-◌, ◌*◌, ◌/◌, ◌%◌, Bool, true, false, not, ◌&&◌, ◌||◌, ltb, leb, ◌==◌,
  if◌then◌else◌, Option, none, some, List, [], ◌∷◌, ◌++◌, take, drop, length, get_or, set, map,
  of_bytes, to_bytes, bit_and,
}
use riscv_em.Base.Words.{wrap}
use riscv_em.Base.Memory.{splice, write_bytes, read_bytes}
use riscv_em.Helper.{check_bit, assign_bit, addr_within}
use riscv_em.Types.{
  Arch, xlen, RvRet, rv_ok, BusAccessType, bus_read_access, bus_write_access, bus_instr_access,
}

-- `plic_td`
pub record Plic : Type 0 where
  pub priority : List ℕ
  pub pending_bits : List ℕ
  pub enable_bits : List ℕ
  pub priority_threshold : ℕ
  pub claim_complete : ℕ
  pub claimed_bits : List ℕ

-- `NR_PRIO_MEM_REGS` and `NR_ENABLE_REGS`; there are as many pending and claimed registers.
abbrev pub nr_prio_mem_regs : ℕ
nr_prio_mem_regs = 256

abbrev pub nr_enable_regs : ℕ
nr_enable_regs = 8

-- The bytes of the structure, and back
abbrev pub bytes_of_words : List ℕ → List ℕ
bytes_of_words [] = []
bytes_of_words (w ∷ ws) = to_bytes 4 w ++ bytes_of_words ws

abbrev pub words_of_bytes : ℕ → List ℕ → List ℕ
words_of_bytes zero bs = []
words_of_bytes (suc n) bs = of_bytes (take 4 bs) ∷ words_of_bytes n (drop 4 bs)

abbrev pub struct_words : Plic → List ℕ
struct_words p =
    p.priority
    ++ p.pending_bits
    ++ p.enable_bits
    ++ (p.priority_threshold ∷ p.claim_complete ∷ [])
    ++ p.claimed_bits

abbrev pub of_struct_words : List ℕ → Plic
of_struct_words ws = record {
  priority = take 256 ws;
  pending_bits = take 8 (drop 256 ws);
  enable_bits = take 8 (drop 264 ws);
  priority_threshold = get_or ws 272 0;
  claim_complete = get_or ws 273 0;
  claimed_bits = take 8 (drop 274 ws);
}

-- The byte of the structure that an address reaches, and `*is_claim_complete`
unfoldable pub get_u8_reg_ptr : Arch → ℕ → Option (ℕ × Bool)
get_u8_reg_ptr a address =
    if ltb address 0x400
    then (if leb 4 address then some (address, false) else none)
    else if addr_within (xlen a) address 0x1000 0x20
    then some (256 * 4 + (address - 0x1000), false)
    else if addr_within (xlen a) address 0x2000 0x20
    then some (264 * 4 + (address - 0x2000), false)
    else if addr_within (xlen a) address 0x200000 4
    then some (272 * 4 + (address - 0x200000), false)
    else if addr_within (xlen a) address 0x200004 4
    then some (273 * 4 + (address - 0x200004), true)
    else none

unfoldable pub plic_check_sanity : Plic → Plic
plic_check_sanity p = record p {
  priority = map (λ w. bit_and w 0x7) p.priority;
  priority_threshold = bit_and p.priority_threshold 0x7;
}

-- `none` is an index beyond the eight registers.
unfoldable pub plic_update_pending : Plic → ℕ → ℕ → Option Plic
plic_update_pending p interrupt_id pending =
    let irq_reg = interrupt_id / 32 in
    if ltb irq_reg nr_enable_regs
    then some (record p {
      pending_bits =
          set p.pending_bits irq_reg
            (assign_bit 32 (get_or p.pending_bits irq_reg 0) (interrupt_id % 32) pending);
    })
    else none

-- The variables of the loops of `plic_update`
pub record Scan : Type 0 where
  pub plic : Plic
  pub irq_id_count : ℕ
  pub irq_to_trigger : ℕ
  pub highest_prio : ℕ

-- The body of the inner loop, at bit `j` of register `i`; `highest_prio` has 8 bits.
unfoldable pub scan_bit : ℕ → ℕ → Scan → Scan
scan_bit i j s =
    let p = s.plic in
    let prio = get_or p.priority s.irq_id_count 0 in
    let counted = record s { irq_id_count = s.irq_id_count + 1 } in
    if check_bit (get_or p.enable_bits i 0) j
      && check_bit (get_or p.pending_bits i 0) j
      && leb p.priority_threshold prio
    then (if check_bit (get_or p.claimed_bits i 0) j
        then record counted {
          plic = record p {
            pending_bits = set p.pending_bits i (assign_bit 32 (get_or p.pending_bits i 0) j 0);
          };
        }
        else if leb s.highest_prio prio
        then record counted { highest_prio = wrap 8 prio; irq_to_trigger = s.irq_id_count }
        else counted)
    else counted

-- The inner loop, from bit `j` with `n` to go
unfoldable pub bit_loop : ℕ → ℕ → ℕ → Scan → Scan
bit_loop i zero j s = s
bit_loop i (suc n) j s = bit_loop i n (j + 1) (scan_bit i j s)

-- The outer loop, from register `i` with `n` to go. A register that is skipped is not counted.
unfoldable pub enable_loop : ℕ → ℕ → Scan → Scan
enable_loop zero i s = s
enable_loop (suc n) i s = enable_loop n (i + 1) (
    if get_or s.plic.enable_bits i 0 == 0 || get_or s.plic.pending_bits i 0 == 0
    then s
    else bit_loop i 32 0 s)

abbrev pub scanned : Plic → Scan
scanned p =
    enable_loop nr_enable_regs 0
      (record { plic = p; irq_id_count = 0; irq_to_trigger = 0; highest_prio = 0 })

-- The result is returned with the controller.
unfoldable pub plic_update : Plic → Bool × Plic
plic_update p =
    let s = scanned p in
    let q = s.plic in
    if ltb 0 s.irq_to_trigger
    then (true, record q { claim_complete = s.irq_to_trigger })
    else (false, record q { claim_complete = 0 })

-- An assignment to one claimed bit; `none` is an index beyond the eight registers.
abbrev pub assign_claimed : Plic → ℕ → ℕ → Option Plic
assign_claimed p tmp_val value =
    if ltb (tmp_val / 32) nr_enable_regs
    then some (record p {
      claimed_bits =
          set p.claimed_bits (tmp_val / 32)
            (assign_bit 32 (get_or p.claimed_bits (tmp_val / 32) 0) (tmp_val % 32) value);
    })
    else none

abbrev pub first_word : List ℕ → ℕ
first_word bs = of_bytes (take 4 bs)

-- A write, with the controller's bytes already copied
abbrev pub finish_write : Plic → Bool → List ℕ → Option (RvRet × Plic × List ℕ)
finish_write p is_claim value =
    elim (if is_claim then assign_claimed p (first_word value) 0 else some p) [
      | none ↦ none
      | some q ↦ some (rv_ok, plic_check_sanity q, value)
    ]

-- A read of the claim register marks a pending interrupt as claimed.
abbrev pub claim : Plic → ℕ → Option Plic
claim p tmp_val =
    if ltb (tmp_val / 32) nr_enable_regs
    then (if check_bit (get_or p.pending_bits (tmp_val / 32) 0) (tmp_val % 32)
        then assign_claimed p tmp_val 1
        else some p)
    else none

abbrev pub finish_read : Plic → Bool → ℕ → List ℕ → Option (RvRet × Plic × List ℕ)
finish_read p is_claim tmp_val value = elim (if is_claim then claim p tmp_val else some p) [
  | none ↦ none
  | some q ↦ some (rv_ok, q, value)
]

-- The buffer `value` is a list of bytes, of which the access uses the first `len`, and the claim
-- register the first four. The result has the controller and the buffer afterwards.
unfoldable pub plic_bus_access :
    Arch → Plic → BusAccessType → ℕ → List ℕ → ℕ → Option (RvRet × Plic × List ℕ)
plic_bus_access a p access_type address value len = elim (get_u8_reg_ptr a address) [
  | none ↦ some (rv_ok, p, value)
  | some (offs, is_claim) ↦
      let bytes = bytes_of_words (struct_words p) in
      elim access_type [
        | bus_write_access ↦ elim (write_bytes bytes offs (take len value)) [
          | none ↦ none
          | some written ↦
              finish_write (of_struct_words (words_of_bytes 282 written)) is_claim value
        ]
        | _ ↦ elim (read_bytes bytes offs len) [
          | none ↦ none
          | some copied ↦
              finish_read p is_claim (first_word (drop offs bytes)) (splice value 0 copied)
        ]
      ]
]
