-- ===== src/Core/Atomic/Effect.antt =====
-- The read-modify-write instructions of src/core/core.c on memory that answers.
use riscv_em.Base.{
  ℕ, ◌+◌, ◌*◌, ◌^◌, ◌%◌, ◌<◌, ◌≡◌, ap, ◌∙◌, get_or, length, get_or-set_self, bit_and, bit_or,
  bit_xor, Bool, true, false, ltb, if◌then◌else◌, arith,
}
use riscv_em.Base.Words.{wrap, wrap-lt, wrap_of_lt}
use riscv_em.Types.{Arch, rv32, rv64, xlen, RvRet, rv_ok, rv_err, bus_read_access}
use riscv_em.Core.State.{rs1_val, rs2_val, write_rd}
use riscv_em.Core.Words.{signex, ltb_signed}
use riscv_em.Helper.Laws.{bit_and-lt, bit_or-lt, bit_xor-lt}
use riscv_em.Core.Hart.{Hart, Access, IsMemory}
use riscv_em.Core.Load.{effective_address, load, instr_lw, instr_ld}
use riscv_em.Core.Atomic.{
  amo, instr_amoswap_w, swap_result, instr_amoswap_d, instr_amoadd_w, add_result, instr_amoadd_d,
  instr_amoxor_w, xor_result, instr_amoxor_d, instr_amoand_w, and_result, instr_amoand_d,
  instr_amoor_w, or_result, instr_amoor_d, instr_amomin_w, min_result, instr_amomin_d,
  instr_amomax_w, max_result, instr_amomax_d, instr_amominu_w, minu_result, instr_amominu_d,
  instr_amomaxu_w, maxu_result, instr_amomaxu_d,
}

-- What a read-modify-write instruction leaves behind: `new` in memory, and the old value, extended,
-- in the target register.
abbrev pub IsUpdate : {σ : Type 0} → (σ → ℕ) → Hart σ → (extended new : ℕ) → Type 0
IsUpdate get h' extended new = (get h'.rest ≡ new) × (get_or h'.core.x h'.core.rd 0 ≡ extended)

extension : (a : Arch) (v : ℕ) → v < 2 ^ 32 → wrap 32 (signex (xlen a) 32 v) ≡ v
unfolding signex
extension rv32 v h = ground arith
extension rv64 v h = ground arith

module _ (a : Arch) {σ : Type 0} (access : Access σ) (IsReady : σ → Type 0) (get : σ → ℕ)
    (h : Hart σ) (len : ℕ) (extend : ℕ → ℕ)
    (restores : (v : ℕ) → v < 2 ^ (8 * len) → wrap (8 * len) (extend v) ≡ v)
    (memory : IsMemory access IsReady get (rs1_val h.core) len) (ready : IsReady h.rest)
    (no_offset : h.core.immediate ≡ 0) (address_fits : rs1_val h.core < 2 ^ xlen a)
    (rd_exists : h.core.rd < length h.core.x) where
  effective : effective_address a access h.core ≡ rs1_val h.core
  unfolding signex
  effective = ground (arith, no_offset, wrap_of_lt (xlen a) (rs1_val h.core))

  loaded : load a access len extend h ≡ record h { core = write_rd h.core (extend (get h.rest)) }
  unfolding load
  loaded =
      ap after
        (ap (λ t. access bus_read_access t 0 len h.rest) effective ∙ memory.read h.rest ready)
    where
      after : RvRet × ℕ × σ → Hart σ
      after (ret, value, rest) = elim ret [
        | rv_ok ↦ record h { core = write_rd h.core (extend value); rest = rest }
        | rv_err ↦ record h { rest = rest }
      ]

  amo-IsUpdate :
      (op : ℕ → ℕ → ℕ)
      → ((u v : ℕ) → u < 2 ^ (8 * len) → v < 2 ^ (8 * len) → op u v < 2 ^ (8 * len))
      → IsUpdate get
          (amo a access len (load a access len extend) op h)
          (extend (get h.rest))
          (op (get h.rest) (wrap (8 * len) (rs2_val h.core)))
  unfolding amo
  amo-IsUpdate op bound =
      let old = get h.rest in
      let in_rd = get_or-set_self h.core.x h.core.rd (extend old) 0 rd_exists in
      let value = ap (λ t. wrap (8 * len) t) in_rd ∙ restores old (memory.fits h.rest ready) in
      rw loaded (
        rw value (
            (memory.write h.rest (op old (wrap (8 * len) (rs2_val h.core))) ready
              (bound old _ (memory.fits h.rest ready) (wrap-lt (8 * len) (rs2_val h.core)))).1),
        in_rd,
      )

choice-lt : (b : Bool) (m u v : ℕ) → u < m → v < m → (if b then u else v) < m
choice-lt true m u v h k = h
choice-lt false m u v h k = k

-- On four bytes of memory that is ready at the address in `x[rs1]`, for a decoded instruction (immediate 0, a
-- target that exists), each of the nine 32-bit operations leaves its result in memory and the old
-- value, sign-extended, in the target register.
pub amo_w_lem :
    (a : Arch) {σ : Type 0} (access : Access σ) (IsReady : σ → Type 0) (get : σ → ℕ) (h : Hart σ)
    → IsMemory access IsReady get (rs1_val h.core) 4
    → IsReady h.rest
    → h.core.immediate ≡ 0
    → rs1_val h.core < 2 ^ xlen a
    → h.core.rd < length h.core.x
    → let old = get h.rest in
      let new_value = wrap 32 (rs2_val h.core) in
      let extended = signex (xlen a) 32 old in
      IsUpdate get (instr_amoswap_w a access h) extended (new_value)
      × IsUpdate get (instr_amoadd_w a access h) extended ((old + new_value) % 2 ^ 32)
      × IsUpdate get (instr_amoxor_w a access h) extended (bit_xor old new_value)
      × IsUpdate get (instr_amoand_w a access h) extended (bit_and old new_value)
      × IsUpdate get (instr_amoor_w a access h) extended (bit_or old new_value)
      × IsUpdate get
          (instr_amomin_w a access h)
          extended
          (if ltb_signed 32 old new_value then old else new_value)
      × IsUpdate get
          (instr_amomax_w a access h)
          extended
          (if ltb_signed 32 new_value old then old else new_value)
      × IsUpdate get
          (instr_amominu_w a access h)
          extended
          (if ltb old new_value then old else new_value)
      × IsUpdate get
          (instr_amomaxu_w a access h)
          extended
          (if ltb new_value old then old else new_value)
unfolding instr_amoswap_w swap_result instr_amoadd_w add_result instr_amoxor_w xor_result
    instr_amoand_w and_result instr_amoor_w or_result instr_amomin_w min_result instr_amomax_w
    max_result instr_amominu_w minu_result instr_amomaxu_w maxu_result instr_lw
amo_w_lem a access IsReady get h memory ready no_offset fits rd_exists = (
  update (swap_result 32) (λ u v h k. k),
  update (add_result 32) (λ u v h k. wrap-lt 32 (u + v)),
  update (xor_result 32) (λ u v h k. bit_xor-lt 32 u v h k),
  update (and_result 32) (λ u v h k. bit_and-lt 32 u v k),
  update (or_result 32) (λ u v h k. bit_or-lt 32 u v h k),
  update (min_result 32) (λ u v h k. choice-lt (ltb_signed 32 u v) _ u v h k),
  update (max_result 32) (λ u v h k. choice-lt (ltb_signed 32 v u) _ u v h k),
  update (minu_result 32) (λ u v h k. choice-lt (ltb u v) _ u v h k),
  update (maxu_result 32) (λ u v h k. choice-lt (ltb v u) _ u v h k),
)
  where
    update :
        (op : ℕ → ℕ → ℕ)
        → ((u v : ℕ) → u < 2 ^ 32 → v < 2 ^ 32 → op u v < 2 ^ 32)
        → IsUpdate get
            (amo a access 4 (load a access 4 (signex (xlen a) 32)) op h)
            ((signex (xlen a) 32) (get h.rest))
            (op (get h.rest) (wrap 32 (rs2_val h.core)))
    update op bound =
        amo-IsUpdate a access IsReady get h 4 (signex (xlen a) 32) (extension a) memory ready
          no_offset fits rd_exists op bound

-- On eight bytes of memory that is ready at the address in `x[rs1]`, for a decoded instruction (immediate 0, a
-- target that exists) of RV64, each of the nine 64-bit operations leaves its result in memory and
-- the old value in the target register.
pub amo_d_lem :
    {σ : Type 0} (access : Access σ) (IsReady : σ → Type 0) (get : σ → ℕ) (h : Hart σ)
    → IsMemory access IsReady get (rs1_val h.core) 8
    → IsReady h.rest
    → h.core.immediate ≡ 0
    → rs1_val h.core < 2 ^ 64
    → h.core.rd < length h.core.x
    → let old = get h.rest in
      let new_value = wrap 64 (rs2_val h.core) in
      let extended = old in
      IsUpdate get (instr_amoswap_d rv64 access h) extended (new_value)
      × IsUpdate get (instr_amoadd_d rv64 access h) extended ((old + new_value) % 2 ^ 64)
      × IsUpdate get (instr_amoxor_d rv64 access h) extended (bit_xor old new_value)
      × IsUpdate get (instr_amoand_d rv64 access h) extended (bit_and old new_value)
      × IsUpdate get (instr_amoor_d rv64 access h) extended (bit_or old new_value)
      × IsUpdate get
          (instr_amomin_d rv64 access h)
          extended
          (if ltb_signed 64 old new_value then old else new_value)
      × IsUpdate get
          (instr_amomax_d rv64 access h)
          extended
          (if ltb_signed 64 new_value old then old else new_value)
      × IsUpdate get
          (instr_amominu_d rv64 access h)
          extended
          (if ltb old new_value then old else new_value)
      × IsUpdate get
          (instr_amomaxu_d rv64 access h)
          extended
          (if ltb new_value old then old else new_value)
unfolding instr_amoswap_d swap_result instr_amoadd_d add_result instr_amoxor_d xor_result
    instr_amoand_d and_result instr_amoor_d or_result instr_amomin_d min_result instr_amomax_d
    max_result instr_amominu_d minu_result instr_amomaxu_d maxu_result instr_ld
amo_d_lem access IsReady get h memory ready no_offset fits rd_exists = (
  update (swap_result 64) (λ u v h k. k),
  update (add_result 64) (λ u v h k. wrap-lt 64 (u + v)),
  update (xor_result 64) (λ u v h k. bit_xor-lt 64 u v h k),
  update (and_result 64) (λ u v h k. bit_and-lt 64 u v k),
  update (or_result 64) (λ u v h k. bit_or-lt 64 u v h k),
  update (min_result 64) (λ u v h k. choice-lt (ltb_signed 64 u v) _ u v h k),
  update (max_result 64) (λ u v h k. choice-lt (ltb_signed 64 v u) _ u v h k),
  update (minu_result 64) (λ u v h k. choice-lt (ltb u v) _ u v h k),
  update (maxu_result 64) (λ u v h k. choice-lt (ltb v u) _ u v h k),
)
  where
    update :
        (op : ℕ → ℕ → ℕ)
        → ((u v : ℕ) → u < 2 ^ 64 → v < 2 ^ 64 → op u v < 2 ^ 64)
        → IsUpdate get
            (amo rv64 access 8 (load rv64 access 8 (λ (v : ℕ). v)) op h)
            ((λ (v : ℕ). v) (get h.rest))
            (op (get h.rest) (wrap 64 (rs2_val h.core)))
    update op bound =
        amo-IsUpdate rv64 access IsReady get h 8 (λ (v : ℕ). v) (λ v k. wrap_of_lt 64 v k) memory
          ready no_offset fits rd_exists op bound
