-- ===== src/Core/Decode/Complete.antt =====
-- `rv_call_from_opcode_list` of src/core/core.c on tables in which every way ends at a function.
use riscv_em.Base.{
  ℕ, Option, none, some, ◌==◌, if◌then◌else◌, Bool, true, false, ◌≡◌, refl, ◌⊎◌, inl, inr,
}
use riscv_em.Core.State.{Core}
use riscv_em.Core.Decode.{
  Preparation, Hook, hook, Table, null, end_list, entry, call_from_opcode_list, call_hook, prepare,
}

module _ {ε : Type 0} (IsKept : Core → Type 0) (IsGood : ε → Type 0) where
  -- A preparation callback, or none, that keeps the property of the fields
  pub data IsKeptBy : Option Preparation → Type 0 where
    no_preparation : IsKeptBy none
    keeps : {p : Preparation} → ((c : Core) → IsKept c → IsKept (p c).0) → IsKeptBy (some p)

  mutual
    -- An entry has a good function and no table, or a preparation that gives a number, and a table.
    pub data IsCompleteHook : Hook ε → Type 0 where
      ends :
          {p : Option Preparation} {e : ε}
          → IsKeptBy p
          → IsGood e
          → IsCompleteHook (hook p (some e) null)
      leads :
          {p : Preparation} {t : Table ε}
          → ((c : Core) → IsKept c → IsKept (p c).0 × ((k : ℕ) × ((p c).1 ≡ some k)))
          → IsComplete t
          → IsCompleteHook (hook (some p) none t)

    pub data IsComplete : Table ε → Type 0 where
      nothing : IsComplete end_list
      also :
          {i : ℕ} {h : Hook ε} {t : Table ε}
          → IsCompleteHook h
          → IsComplete t
          → IsComplete (entry i h t)

  -- Decoding ends the program, or leaves good fields and a good function.
  abbrev pub Decoded : Option (Core × Option ε) → Type 0
  Decoded r = (r ≡ none) ⊎ ((c : Core) × (e : ε) × (r ≡ some (c, some e)) × IsKept c × IsGood e)

  prepare-IsKept :
      (p : Option Preparation) → IsKeptBy p → (c : Core) → IsKept c → IsKept (prepare p c).0
  prepare-IsKept none no_preparation c kept = kept
  prepare-IsKept (some p) (keeps f) c kept = f c kept

  by_index :
      (r s : Option (Core × Option ε)) (b : Bool)
      → Decoded r
      → Decoded s
      → Decoded (if b then r else s)
  by_index r s true d d' = d
  by_index r s false d d' = d'

  by_subcode :
      (c : Core) (e : ε)
      → IsKept c
      → IsGood e
      → (o : Option ℕ)
      → Decoded
          (elim o [ none ↦ some (c, some e) | some k ↦ call_from_opcode_list null k c (some e) ])
  unfolding call_from_opcode_list
  by_subcode c e kept good none = inr (c, e, refl, kept, good)
  by_subcode c e kept good (some k) = inr (c, e, refl, kept, good)

  by_number :
      (t : Table ε) (c : Core) (cb : Option ε) (o : Option ℕ) (k : ℕ)
      → o ≡ some k
      → Decoded (call_from_opcode_list t k c cb)
      → Decoded (elim o [ none ↦ some (c, cb) | some j ↦ call_from_opcode_list t j c cb ])
  by_number t c cb o k e d = rw e d

  mutual
    unfolding call_from_opcode_list call_hook

    pub call-Decoded :
        (t : Table ε)
        → IsComplete t
        → (opcode : ℕ) (c : Core) (cb : Option ε) → IsKept c
        → Decoded (call_from_opcode_list t opcode c cb)
    call-Decoded _ nothing opcode c cb kept = inl refl
    call-Decoded _ (also {i = i} {h = h} {t = t} here rest) opcode c cb kept =
        by_index _ _ (i == opcode) (call_hook-Decoded h here c cb kept)
          (call-Decoded t rest opcode c cb kept)

    call_hook-Decoded :
        (h : Hook ε)
        → IsCompleteHook h
        → (c : Core) (cb : Option ε) → IsKept c
        → Decoded (call_hook h c cb)
    call_hook-Decoded _ (ends {p = p} {e = e} kp good) c cb kept =
        by_subcode (prepare p c).0 e (prepare-IsKept p kp c kept) good (prepare p c).1
    call_hook-Decoded _ (leads {p = p} {t = t} f complete) c cb kept =
        let (kept_too, (k, e)) = f c kept in
        by_number t (p c).0 cb (p c).1 k e (call-Decoded t complete k (p c).0 cb kept_too)
