-- ===== src/Core/Load/RoundTrip.antt =====
-- A store and then a load in src/core/core.c.
use riscv_em.Base.{ℕ, ◌*◌, ◌≡◌, ap, ◌∙◌}
use riscv_em.Base.Words.{wrap, wrap-lt}
use riscv_em.Types.{Arch, RvRet, rv_ok, rv_err}
use riscv_em.Core.State.{Core, rs2_val, write_rd}
use riscv_em.Core.Hart.{Hart, Access, IsMemory}
use riscv_em.Core.Load.{effective_address, load, store_rs2}

-- A load from memory writes what its bytes hold, extended.
load-memory :
    (a : Arch) {σ : Type 0} (access : Access σ) (IsReady : σ → Type 0) (get : σ → ℕ) (len : ℕ)
    (extend : ℕ → ℕ) (h : Hart σ)
    → IsMemory access IsReady get (effective_address a access h.core) len
    → IsReady h.rest
    → (load a access len extend h).core ≡ write_rd h.core (extend (get h.rest))
unfolding load
load-memory a {σ = σ} access IsReady get len extend h memory ready =
    ap after (memory.read h.rest ready)
  where
    after : RvRet × ℕ × σ → Core
    after (ret, value, rest) =
        (elim ret as (λ _. Hart σ) [
          | rv_ok ↦ record h { core = write_rd h.core (extend value); rest = rest }
          | rv_err ↦ record h { rest = rest }
        ]).core

-- On memory that is ready, a load of as many bytes from the address that a store wrote just before, by any
-- instruction `c` decoded after the store, writes the low bytes stored, extended, to its target.
pub load-store_rs2 :
    (a : Arch) {σ : Type 0} (access : Access σ) (IsReady : σ → Type 0) (get : σ → ℕ) (len : ℕ)
    (extend : ℕ → ℕ) (h : Hart σ) (c : Core)
    → IsMemory access IsReady get (effective_address a access h.core) len
    → IsReady h.rest
    → effective_address a access c ≡ effective_address a access h.core
    → let loaded = load a access len extend (record (store_rs2 a access len h) { core = c }) in
      loaded.core ≡ write_rd c (extend (wrap (8 * len) (rs2_val h.core)))
unfolding store_rs2
load-store_rs2 a access IsReady get len extend h c memory ready same =
    let stored = wrap (8 * len) (rs2_val h.core) in
    let (still, held) = memory.write h.rest stored ready (wrap-lt (8 * len) (rs2_val h.core)) in
    load-memory a access IsReady get len extend (record (store_rs2 a access len h) { core = c })
      (rw same memory) still
    ∙ ap (λ v. write_rd c (extend v)) held
