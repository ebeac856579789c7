-- ===== src/Fifo/Entering.antt =====
-- `fifo_in` of src/helpers/fifo.c, called with one byte.
use native.Mathlib.Nat.{mod-lt}
use riscv_em.Base.{
  ℕ, zero, suc, ◌+◌, ◌^◌, ◌≤◌, ◌<◌, ◌≡◌, refl, sym, ap, ◌∙◌, bit_and, Bool, true, false, not, ltb,
  if◌then◌else◌, Bool-cases, inl, inr, Option, none, some, List, [], ◌∷◌, length, set, arith,
}
use riscv_em.Base.Words.{wrap, pow-pos}
use riscv_em.Base.Memory.{splice, write_bytes}
use riscv_em.Helper.Laws.{mask-eq-mod}
use riscv_em.Fifo.{Fifo, fifo_unused, fifo_len, fifo_is_full}
use riscv_em.Fifo.Queue.{IsFifo, pow-le}
use riscv_em.Fifo.Bulk.{first_piece, copy_back, copy_front, fifo_copy_in, fifo_in}

splice-one : (xs : List ℕ) (i v : ℕ) → splice xs i (v ∷ []) ≡ set xs i v
splice-one [] i v = refl
splice-one (x ∷ []) zero v = refl
splice-one (x ∷ (y ∷ ys)) zero v = refl
splice-one (x ∷ xs) (suc i) v = ap (λ t. x ∷ t) (splice-one xs i v)

splice-none : (xs : List ℕ) (i : ℕ) → splice xs i [] ≡ xs
splice-none [] i = refl
splice-none (x ∷ xs) zero = refl
splice-none (x ∷ xs) (suc i) = ap (λ t. x ∷ t) (splice-none xs i)

write_bytes-one :
    (xs : List ℕ) (i v : ℕ) → i < length xs → write_bytes xs i (v ∷ []) ≡ some (set xs i v)
write_bytes-one xs i v h = ground (arith, splice-one xs i v)

write_bytes-none : (xs : List ℕ) (i : ℕ) → i ≤ length xs → write_bytes xs i [] ≡ some xs
write_bytes-none xs i h = ground (arith, splice-none xs i)

module _ (k : ℕ) (f : Fifo) (wf : IsFifo k f) where
  offset-lt : (at : ℕ) → bit_and at f.mask < 2 ^ k
  offset-lt at = omega (
    arith,
    ap (λ m. bit_and at m) wf.mask_is ∙ mask-eq-mod at k,
    mod-lt at {m = 2 ^ k} (pow-pos k),
  )

  pub one_piece : (len at : ℕ) → len ≤ 1 → first_piece f len (bit_and at f.mask) ≡ len
  unfolding first_piece
  one_piece len at h = ground (arith, wf.mask_is, wf.width, offset-lt at, pow-le k wf.width)

  pub inside : (at : ℕ) → bit_and at f.mask < length f.data_arr
  inside at = omega (arith, offset-lt at, wf.room)

  fifo_copy_in-one :
      (val : ℕ)
      → fifo_copy_in f (val ∷ []) 1 f.inn ≡ some (set f.data_arr (bit_and f.inn f.mask) val)
  unfolding fifo_copy_in
  fifo_copy_in-one val =
      ap (λ l. copy_back (copy_front f.data_arr (val ∷ []) (bit_and f.inn f.mask) l) (val ∷ []) l 1)
        (one_piece 1 f.inn (omega arith))
      ∙ ap (λ r. copy_back r (val ∷ []) 1 1)
          (write_bytes-one f.data_arr (bit_and f.inn f.mask) val (inside f.inn))
      ∙ write_bytes-none (set f.data_arr (bit_and f.inn f.mask) val) 0 (omega arith)

  fifo_copy_in-none : (val : ℕ) → fifo_copy_in f (val ∷ []) 0 f.inn ≡ some f.data_arr
  unfolding fifo_copy_in
  fifo_copy_in-none val =
      ap (λ l. copy_back (copy_front f.data_arr (val ∷ []) (bit_and f.inn f.mask) l) (val ∷ []) l 0)
        (one_piece 0 f.inn (omega arith))
      ∙ ap (λ r. copy_back r (val ∷ []) 0 0)
          (write_bytes-none f.data_arr (bit_and f.inn f.mask) (omega (arith, inside f.inn)))
      ∙ write_bytes-none f.data_arr 0 (omega arith)

  unused-full : ltb (fifo_unused f) 1 ≡ fifo_is_full f
  unfolding fifo_unused fifo_is_full fifo_len
  unused-full = ground (arith, wf.mask_is, wf.used_fits, pow-le k wf.width, pow-pos k)

  -- `fifo_in` after the copy
  abbrev entered : ℕ → Option (List ℕ) → Option (ℕ × Fifo)
  entered len none = none
  entered len (some stored) =
      some (len, record f { data_arr = stored; inn = wrap 32 (f.inn + len) })

  fifo_in-eq :
      (buf : List ℕ) (len : ℕ)
      → let n = if ltb (fifo_unused f) len then fifo_unused f else len in
        fifo_in f buf len ≡ entered n (fifo_copy_in f buf n f.inn)
  unfolding fifo_in
  fifo_in-eq buf len =
      let n = if ltb (fifo_unused f) len then fifo_unused f else len in
      by_copy n (fifo_copy_in f buf n f.inn)
    where
      by_copy :
          (n : ℕ) (r : Option (List ℕ))
          → (let t : Option (ℕ × Fifo) = elim r [
            | none ↦ none
            | some stored ↦ some (n, record f { data_arr = stored; inn = wrap 32 (f.inn + n) })
          ] in
              t)
            ≡ entered n r
      by_copy n none = refl
      by_copy n (some stored) = refl

  entered-none : entered 0 (some f.data_arr) ≡ some (0, f)
  entered-none = ap (λ i. some (0, record f { inn = i })) (omega (arith, wf.inn_fits))

  -- The answers of `fifo_put`, as `fifo_in` gives them
  abbrev pub put_as_in : ℕ → Bool → Option (ℕ × Fifo)
  put_as_in val ret = some (
    (if ret then 1 else 0),
    (if ret
        then record f {
          data_arr = set f.data_arr (bit_and f.inn f.mask) val;
          inn = wrap 32 (f.inn + 1);
        }
        else f),
  )

  pub fifo_in-put_as_in : (val : ℕ) → fifo_in f (val ∷ []) 1 ≡ put_as_in val (not (fifo_is_full f))
  fifo_in-put_as_in val = elim (Bool-cases (fifo_is_full f)) [
    | inl full ↦
        fifo_in-eq (val ∷ []) 1
        ∙ ap (λ n. entered n (fifo_copy_in f (val ∷ []) n f.inn)) (no_room full)
        ∙ ap (entered 0) (fifo_copy_in-none val)
        ∙ entered-none
        ∙ ap (λ b. put_as_in val (not b)) (sym full)
    | inr free ↦
        fifo_in-eq (val ∷ []) 1
        ∙ ap (λ n. entered n (fifo_copy_in f (val ∷ []) n f.inn)) (has_room free)
        ∙ ap (entered 1) (fifo_copy_in-one val)
        ∙ ap (λ b. put_as_in val (not b)) (sym free)
  ]
    where
      no_room : fifo_is_full f ≡ true → (if ltb (fifo_unused f) 1 then fifo_unused f else 1) ≡ 0
      no_room full = ground (arith, unused-full)

      has_room : fifo_is_full f ≡ false → (if ltb (fifo_unused f) 1 then fifo_unused f else 1) ≡ 1
      has_room free = ground (arith, unused-full)
