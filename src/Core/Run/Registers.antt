-- ===== src/Core/Run/Registers.antt =====
-- What one call of `rv_core_run` of src/core/core.c does to the registers.
use riscv_em.Base.{
  ℕ, ◌≡◌, ◌≢◌, refl, sym, subst, ap, ◌∙◌, ◌⊎◌, inl, inr, Option, none, some, List, set, get_or,
  length, length-set, get_or-set_ne, ==-cases, bit_and, [], ◌∷◌,
}
use riscv_em.Types.{Arch, RvRet, rv_ok, rv_err}
use riscv_em.Mmu.{BusAccess}
use riscv_em.Core.State.{Core}
use riscv_em.Core.Hart.{Hart}
use riscv_em.Core.Machine.{Machine, mmu_checked_bus_access}
use riscv_em.Core.Execution.{Execution}
use riscv_em.Core.Decode.Complete.{Decoded, call-Decoded}
use riscv_em.Core.Opcodes.{rv_opcode_list}
use riscv_em.Core.Run.{
  Cpu, rv_core_run, rv_core_fetch, rv_core_decode, rv_core_execute, advance, advance_cpu,
  decode_and_execute, cleared, clear_x0,
}
use riscv_em.Core.Run.Fields.{IsDecoding, rd_field}
use riscv_em.Core.Run.Writes.{WritesRd, IsTidy, AllHarts}
use riscv_em.Core.Run.Opcodes.{rv_opcode_list-IsComplete}

-- The registers of `c` come from `xs`: by no write, by clearing `x[0]`, or by a write of the register
-- that the instruction names, or of `x[0]`, before that.
data Written (xs : List ℕ) (c : Core) : Type 0 where
  untouched : c.x ≡ xs → Written xs c
  zero_cleared : c.x ≡ set xs 0 0 → Written xs c
  rd_written :
      (rd v : ℕ)
      → (rd ≡ 0) ⊎ (rd ≡ rd_field c.instruction)
      → c.x ≡ set (set xs rd v) 0 0
      → Written xs c

module _ (a : Arch) {β : Type 0} (bus_access : BusAccess β) where
  abbrev AllRuns : List ℕ → Option (Cpu β) → Type 0
  AllRuns xs none = Unit
  AllRuns xs (some cpu) = Written xs cpu.hart.core

  target_of :
      (o c : Core) (h : Hart (Option (Machine β)))
      → IsDecoding o c
      → WritesRd c h.core
      → (c.rd ≡ 0) ⊎ (c.rd ≡ rd_field h.core.instruction)
  target_of o c h d w = elim d.target [
    | inl none_named ↦ inl none_named
    | inr named ↦ inr (named ∙ ap rd_field (sym (w.same_instruction ∙ d.same_word)))
  ]

  -- The fields at the call of `execute_cb`, and the registers after it
  executed :
      (o c : Core) (h : Hart (Option (Machine β)))
      → IsDecoding o c
      → WritesRd c h.core
      → Written o.x (clear_x0 a bus_access h).core
  executed o c h d w = elim w.registers [
    | inl same ↦ zero_cleared (ap (λ xs. set xs 0 0) (same ∙ d.same_x))
    | inr (v, e) ↦
        rd_written c.rd v (target_of o c h d w)
          (ap (λ xs. set xs 0 0) (e ∙ ap (λ xs. set xs c.rd v) d.same_x))
  ]

  execute-AllRuns :
      (o : Core) (h : Hart (Option (Machine β))) (e : Execution β)
      → IsDecoding o h.core
      → IsTidy β e
      → AllRuns o.x (rv_core_execute a bus_access (record { hart = h; execute_cb = some e }))
  unfolding rv_core_execute
  execute-AllRuns o h e d tidy = after (e h) (tidy h)
    where
      after :
          (r : Option (Hart (Option (Machine β))))
          → AllHarts β h.core r
          → AllRuns o.x (elim r [
            | none ↦ none
            | some h' ↦ some (record { hart = clear_x0 a bus_access h'; execute_cb = some e })
          ])
      after none w = tt
      after (some h') w = executed o h.core h' d w

  decode_and_execute-AllRuns :
      (cpu : Cpu β) → AllRuns cpu.hart.core.x (decode_and_execute a bus_access cpu)
  unfolding rv_core_decode
  decode_and_execute-AllRuns cpu =
      let o = cpu.hart.core in
      after _ (
        call-Decoded (IsDecoding o) (IsTidy β)
          (rv_opcode_list a (mmu_checked_bus_access a bus_access))
          (rv_opcode_list-IsComplete a (mmu_checked_bus_access a bus_access) o)
          (bit_and o.instruction 0x7F) (cleared a bus_access o) cpu.execute_cb
          (record { same_x = refl; same_word = refl; target = inl refl }))
    where
      rest : Option (Core × Option (Execution β)) → Option (Cpu β)
      rest r =
          let h = cpu.hart in
          let decoded : Option (Cpu β) = elim r [
            | none ↦ none
            | some (c, cb) ↦ some (record { hart = record h { core = c }; execute_cb = cb })
          ] in
          elim decoded [ none ↦ none | some next ↦ rv_core_execute a bus_access next ]

      after :
          (r : Option (Core × Option (Execution β)))
          → Decoded (IsDecoding cpu.hart.core) (IsTidy β) r
          → AllRuns cpu.hart.core.x (rest r)
      after r (inl e) = rw e tt
      after r (inr (c, f, e, d, tidy)) =
          rw e (let h = cpu.hart in execute-AllRuns cpu.hart.core (record h { core = c }) f d tidy)

  advance-AllRuns :
      (xs : List ℕ) (r : Option (Cpu β)) → AllRuns xs r → AllRuns xs (advance_cpu a bus_access r)
  unfolding advance
  advance-AllRuns xs none w = tt
  advance-AllRuns xs (some cpu) (untouched e) = untouched e
  advance-AllRuns xs (some cpu) (zero_cleared e) = zero_cleared e
  advance-AllRuns xs (some cpu) (rd_written rd v t e) = rd_written rd v t e

  rv_core_run-AllRuns : (cpu : Cpu β) → AllRuns cpu.hart.core.x (rv_core_run a bus_access cpu)
  unfolding rv_core_run rv_core_fetch
  rv_core_run-AllRuns cpu =
      let h = cpu.hart in
      let c = h.core in
      let fetched = rv_core_fetch a bus_access (record h { core = record c { next_pc = 0 } }) in
      by_ret (record cpu { hart = fetched.1 }) fetched.0
    where
      by_ret :
          (ready : Cpu β) (r : RvRet)
          → AllRuns ready.hart.core.x (elim r [
            | rv_ok ↦ advance_cpu a bus_access (decode_and_execute a bus_access ready)
            | rv_err ↦ advance_cpu a bus_access (some ready)
          ])
      by_ret ready rv_ok = advance-AllRuns ready.hart.core.x _ (decode_and_execute-AllRuns ready)
      by_ret ready rv_err = advance-AllRuns ready.hart.core.x (some ready) (untouched refl)

get_or-clear : (xs : List ℕ) → get_or (set xs 0 0) 0 0 ≡ 0
get_or-clear [] = refl
get_or-clear (x ∷ xs) = refl

Written-zero : (xs : List ℕ) (c : Core) → Written xs c → get_or xs 0 0 ≡ 0 → get_or c.x 0 0 ≡ 0
Written-zero xs c (untouched e) zero_is = ap (λ xs. get_or xs 0 0) e ∙ zero_is
Written-zero xs c (zero_cleared e) zero_is = ap (λ xs. get_or xs 0 0) e ∙ get_or-clear xs
Written-zero xs c (rd_written rd v t e) zero_is =
    ap (λ xs. get_or xs 0 0) e ∙ get_or-clear (set xs rd v)

Written-length : (xs : List ℕ) (c : Core) → Written xs c → length c.x ≡ length xs
Written-length xs c (untouched e) = ap length e
Written-length xs c (zero_cleared e) = ap length e ∙ length-set xs 0 0
Written-length xs c (rd_written rd v t e) =
    ap length e ∙ length-set (set xs rd v) 0 0 ∙ length-set xs rd v

Written-other :
    (xs : List ℕ) (c : Core) (i : ℕ)
    → Written xs c
    → 0 ≢ i
    → rd_field c.instruction ≢ i
    → get_or c.x i 0 ≡ get_or xs i 0
Written-other xs c i (untouched e) hz hr = ap (λ xs. get_or xs i 0) e
Written-other xs c i (zero_cleared e) hz hr =
    ap (λ xs. get_or xs i 0) e ∙ get_or-set_ne xs 0 i 0 0 hz
Written-other xs c i (rd_written rd v t e) hz hr =
    ap (λ xs. get_or xs i 0) e
    ∙ get_or-set_ne (set xs rd v) 0 i 0 0 hz
    ∙ get_or-set_ne xs rd i v 0 (elim t [
      | inl is_zero ↦ λ same. hz (sym is_zero ∙ same)
      | inr named ↦ λ same. hr (sym named ∙ same)
    ])

module _ (a : Arch) {β : Type 0} (bus_access : BusAccess β) (cpu next : Cpu β)
    (run : rv_core_run a bus_access cpu ≡ some next)
    (zero_is : get_or cpu.hart.core.x 0 0 ≡ 0) where
  registers_after : Written cpu.hart.core.x next.hart.core
  registers_after =
      subst (AllRuns a bus_access cpu.hart.core.x) run (rv_core_run-AllRuns a bus_access cpu)

  -- One call of `rv_core_run` that returns keeps the number of registers, and every register keeps
  -- its value but the one that bits 7 to 11 of the instruction fetched name; `x[0]` stays 0 even then.
  pub rv_core_run-registers :
      (i : ℕ)
      → (i ≡ 0) ⊎ (rd_field next.hart.core.instruction ≢ i)
      → (length next.hart.core.x ≡ length cpu.hart.core.x)
        × (get_or next.hart.core.x i 0 ≡ get_or cpu.hart.core.x i 0)
  rv_core_run-registers i h = (
    Written-length cpu.hart.core.x next.hart.core registers_after,
    elim (==-cases 0 i) [
      | inl is_zero ↦
          subst (λ (k : ℕ). get_or next.hart.core.x k 0 ≡ get_or cpu.hart.core.x k 0) is_zero
            (Written-zero cpu.hart.core.x next.hart.core registers_after zero_is ∙ sym zero_is)
      | inr not_zero ↦ elim h [
        | inl is_zero ↦ absurd (not_zero (sym is_zero))
        | inr other ↦ Written-other cpu.hart.core.x next.hart.core i registers_after not_zero other
      ]
    ],
  )
