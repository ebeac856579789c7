-- ===== src/Core/Run/Writes.antt =====
-- What an instruction of src/core/core.c writes: at most the register `rd`.
use riscv_em.Base.{
  ℕ, ◌+◌, ◌≡◌, refl, ◌⊎◌, inl, inr, Bool, true, false, Option, none, some, set, if◌then◌else◌, ◌==◌,
  ◌&&◌,
}
use riscv_em.Base.Words.{wrap}
use riscv_em.Types.{Arch, xlen, bus_read_access, RvRet, rv_ok, rv_err}
use riscv_em.Core.State.{Core, write_rd, rs1_val}
use riscv_em.Core.Hart.{Hart, Access}
use riscv_em.Core.Machine.{Machine}
use riscv_em.Core.Execution.{Execution, on_core, on_branch, on_hart, on_machine}
use riscv_em.Core.Load.{load, store_rs2, effective_address}
use riscv_em.Core.Atomic.{store_conditional, amo}
use riscv_em.Core.Branch.{branch_if, addr_misaligned, instr_jal, instr_jalr}

-- From one core to the next, at most `x[rd]` is written, and the instruction word stays.
pub record WritesRd (c c' : Core) : Type 0 where
  pub registers : (c'.x ≡ c.x) ⊎ ((v : ℕ) × (c'.x ≡ set c.x c.rd v))
  pub same_instruction : c'.instruction ≡ c.instruction

pub write_rd-WritesRd : (c : Core) (v : ℕ) → WritesRd c (write_rd c v)
write_rd-WritesRd c v = record { registers = inr (v, refl); same_instruction = refl }

pub same-WritesRd : (c : Core) → WritesRd c c
same-WritesRd c = record { registers = inl refl; same_instruction = refl }

-- The same of a result that may be missing
abbrev pub AllCores : Core → Option Core → Type 0
AllCores c none = Unit
AllCores c (some c') = WritesRd c c'

module _ (β : Type 0) where
  abbrev pub AllHarts : Core → Option (Hart (Option (Machine β))) → Type 0
  AllHarts c none = Unit
  AllHarts c (some h) = WritesRd c h.core

  abbrev pub AllPairs : Core → Option (Core × Machine β) → Type 0
  AllPairs c none = Unit
  AllPairs c (some (c', s)) = WritesRd c c'

  -- An execution writes at most `x[rd]`.
  abbrev pub IsTidy : Execution β → Type 0
  IsTidy f = (h : Hart (Option (Machine β))) → AllHarts h.core (f h)

  pub on_core-IsTidy : (f : Core → Core) → ((c : Core) → WritesRd c (f c)) → IsTidy (on_core f)
  on_core-IsTidy f w h = w h.core

  pub on_branch-IsTidy :
      (f : Core → Option Core) → ((c : Core) → AllCores c (f c)) → IsTidy (on_branch f)
  on_branch-IsTidy f w h = after (f h.core) (w h.core)
    where
      after :
          (r : Option Core)
          → AllCores h.core r
          → AllHarts h.core (elim r [ none ↦ none | some c ↦ some (record h { core = c }) ])
      after none all = tt
      after (some c) all = all

  pub on_hart-IsTidy :
      (f : Hart (Option (Machine β)) → Hart (Option (Machine β)))
      → ((h : Hart (Option (Machine β))) → WritesRd h.core (f h).core)
      → IsTidy (on_hart f)
  on_hart-IsTidy f w h = w h

  pub on_machine-IsTidy :
      (f : Core → Machine β → Option (Core × Machine β))
      → ((c : Core) (s : Machine β) → AllPairs c (f c s))
      → IsTidy (on_machine f)
  on_machine-IsTidy f w h = by_rest h.rest
    where
      after :
          (r : Option (Core × Machine β))
          → AllPairs h.core r
          → AllHarts h.core
              (elim r [ none ↦ none | some (c, t) ↦ some (record h { core = c; rest = some t }) ])
      after none all = tt
      after (some (c, t)) all = all

      by_rest :
          (m : Option (Machine β))
          → AllHarts h.core (elim m [
            | none ↦ none
            | some s ↦ elim (f h.core s) [
              | none ↦ none
              | some (c, t) ↦ some (record h { core = c; rest = some t })
            ]
          ])
      by_rest none = tt
      by_rest (some s) = after (f h.core s) (w h.core s)

module _ (a : Arch) {σ : Type 0} (access : Access σ) where
  pub load-WritesRd :
      (len : ℕ) (extend : ℕ → ℕ) (h : Hart σ) → WritesRd h.core (load a access len extend h).core
  unfolding load
  load-WritesRd len extend h =
      by_ret (access bus_read_access (effective_address a access h.core) 0 len h.rest).0
    where
      after : RvRet → Hart σ
      after r =
          let reply = access bus_read_access (effective_address a access h.core) 0 len h.rest in
          elim r [
            | rv_ok ↦ record h { core = write_rd h.core (extend reply.1); rest = reply.2 }
            | rv_err ↦ record h { rest = reply.2 }
          ]

      by_ret : (r : RvRet) → WritesRd h.core (after r).core
      by_ret rv_ok = write_rd-WritesRd h.core _
      by_ret rv_err = same-WritesRd h.core

  pub store-WritesRd : (len : ℕ) (h : Hart σ) → WritesRd h.core (store_rs2 a access len h).core
  unfolding store_rs2
  store-WritesRd len h = same-WritesRd h.core

  pub amo-WritesRd :
      (len : ℕ) (load : Hart σ → Hart σ) (op : ℕ → ℕ → ℕ)
      → ((h : Hart σ) → WritesRd h.core (load h).core)
      → (h : Hart σ) → WritesRd h.core (amo a access len load op h).core
  unfolding amo
  amo-WritesRd len load op w h = w h

  pub store_conditional-WritesRd :
      (store : Hart σ → Hart σ)
      → ((h : Hart σ) → (store h).core ≡ h.core)
      → (h : Hart σ) → WritesRd h.core (store_conditional a access store h).core
  unfolding store_conditional
  store_conditional-WritesRd store w h = by_test (h.lr_valid && h.lr_address == rs1_val h.core)
    where
      by_test :
          (b : Bool)
          → WritesRd h.core
              (let stored = store h in
                if b
                then record stored { core = write_rd stored.core 0 }
                else record h { core = write_rd h.core 1 }).core
      by_test true = rw (w h) (write_rd-WritesRd h.core 0)
      by_test false = write_rd-WritesRd h.core 1

pub branch_if-AllCores : (a : Arch) (taken : Bool) (c : Core) → AllCores c (branch_if a taken c)
unfolding branch_if
branch_if-AllCores a false c = same-WritesRd c
branch_if-AllCores a true c = by_test (addr_misaligned c.jump_offset)
  where
    by_test :
        (b : Bool)
        → AllCores c
            (if b then none else some (record c { next_pc = wrap (xlen a) (c.pc + c.jump_offset) }))
    by_test true = tt
    by_test false = record { registers = inl refl; same_instruction = refl }

pub jal-AllCores : (a : Arch) (c : Core) → AllCores c (instr_jal a c)
unfolding instr_jal
jal-AllCores a c = by_test (addr_misaligned c.jump_offset)
  where
    by_test :
        (b : Bool)
        → AllCores c (
            let linked = write_rd c (wrap (xlen a) (c.pc + 4)) in
            if b
            then none
            else some (record linked { next_pc = wrap (xlen a) (c.pc + c.jump_offset) }))
    by_test true = tt
    by_test false = record { registers = inr (_, refl); same_instruction = refl }

after_jump :
    (c : Core) (offset next v : ℕ) (b : Bool)
    → AllCores c
        (if b then none else some (write_rd (record c { jump_offset = offset; next_pc = next }) v))
after_jump c offset next v true = tt
after_jump c offset next v false = record { registers = inr (v, refl); same_instruction = refl }

pub jalr-AllCores : (a : Arch) (c : Core) → AllCores c (instr_jalr a c)
unfolding instr_jalr
jalr-AllCores a c = after_jump c _ _ _ _
