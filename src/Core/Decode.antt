-- ===== src/Core/Decode.antt =====
-- src/core/core.h and core.c: the tables that decoding goes through, and the search in them. A
-- table is written as its entries with their indexes; the gaps of the C array are null.
pub mod Complete
use riscv_em.Base.{ℕ, Bool, true, false, ◌==◌, if◌then◌else◌, Option, none, some, List, [], ◌∷◌}
use riscv_em.Core.State.{Core}

-- A preparation callback, with the value left in `*next_subcode`
abbrev pub Preparation : Type 0
Preparation = Core → Core × Option ℕ

mutual
  -- `instruction_hook_td`: the two callbacks, null or not, and the next table.
  pub data Hook (ε : Type 0) : Type 0 where
    hook : (preparation_cb : Option Preparation) (execution_cb : Option ε) (next : Table ε) → Hook ε

  -- `instruction_desc_td`, or null
  pub data Table (ε : Type 0) : Type 0 where
    null end_list : Table ε
    entry : ℕ → Hook ε → Table ε → Table ε

-- The table with the given entries
abbrev pub table_of : {ε : Type 0} → List (ℕ × Hook ε) → Table ε
table_of [] = end_list
table_of ((i, h) ∷ entries) = entry i h (table_of entries)

-- What a preparation callback leaves, where it is not null
abbrev pub prepare : Option Preparation → Core → Core × Option ℕ
prepare none c = (c, none)
prepare (some preparation) c = preparation c

abbrev pub or_previous : {ε : Type 0} → Option ε → Option ε → Option ε
or_previous none cb = cb
or_previous (some execution) cb = some execution

unfoldable mutual
  -- `rv_call_from_opcode_list`: the hart's fields and `execute_cb` afterwards. `none` is the end of
  -- the program at an unknown instruction. The function is not called for a null list: that clause
  -- is what its caller does then.
  pub call_from_opcode_list :
      {ε : Type 0} → Table ε → ℕ → Core → Option ε → Option (Core × Option ε)
  call_from_opcode_list null opcode c cb = some (c, cb)
  call_from_opcode_list end_list opcode c cb = none
  call_from_opcode_list (entry i h others) opcode c cb =
      let here = call_hook h c cb in
      let rest = call_from_opcode_list others opcode c cb in if i == opcode then here else rest

  pub call_hook : {ε : Type 0} → Hook ε → Core → Option ε → Option (Core × Option ε)
  call_hook (hook preparation execution next) c cb = elim (prepare preparation c).1 [
    | none ↦ some ((prepare preparation c).0, or_previous execution cb)
    | some next_subcode ↦
        call_from_opcode_list next next_subcode (prepare preparation c).0 (or_previous execution cb)
  ]
