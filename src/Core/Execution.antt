-- ===== src/Core/Execution.antt =====
-- src/core/core.c: the functions that `execute_cb` may point to, as one type. `none` is the end of the
-- program, undefined behaviour, or no return.
use riscv_em.Base.{Option, none, some}
use riscv_em.Core.State.{Core}
use riscv_em.Core.Hart.{Hart}
use riscv_em.Core.Machine.{Machine}

module _ (β : Type 0) where
  -- `void (*execution_cb)(rv_core_td *)`. Without a machine, undefined behaviour has occurred.
  abbrev pub Execution : Type 0
  Execution = Hart (Option (Machine β)) → Option (Hart (Option (Machine β)))

module _ {β : Type 0} where
  abbrev pub on_core : (Core → Core) → Execution β
  on_core f h = some (record h { core = f h.core })

  abbrev pub on_branch : (Core → Option Core) → Execution β
  on_branch f h = elim (f h.core) [ none ↦ none | some c ↦ some (record h { core = c }) ]

  abbrev pub on_hart : (Hart (Option (Machine β)) → Hart (Option (Machine β))) → Execution β
  on_hart f h = some (f h)

  abbrev pub on_machine : (Core → Machine β → Option (Core × Machine β)) → Execution β
  on_machine f h = elim h.rest [
    | none ↦ none
    | some s ↦ elim (f h.core s) [
      | none ↦ none
      | some (c, t) ↦ some (record h { core = c; rest = some t })
    ]
  ]
