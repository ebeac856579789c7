-- ===== src/Fifo/Single.antt =====
-- The operations of src/helpers/fifo.c on many bytes, where they are called with one byte.
use riscv_em.Base.{
  ℕ, zero, suc, ◌+◌, ◌≤◌, ◌<◌, ◌≡◌, refl, sym, ap, ◌∙◌, bit_and, Bool, true, false, not, ltb,
  if◌then◌else◌, Bool-cases, inl, inr, Option, none, some, List, [], ◌∷◌, take, drop, length,
  get_or, arith,
}
use riscv_em.Base.Words.{wrap, sub_word}
use riscv_em.Base.Memory.{write_bytes, read_bytes}
use riscv_em.Fifo.{Fifo, fifo_is_empty, fifo_put, fifo_get}
use riscv_em.Fifo.Queue.{IsFifo}
use riscv_em.Fifo.Bulk.{copy_first, fifo_in, copy_rest, fifo_copy_out, fifo_out_peek, fifo_out}
use riscv_em.Fifo.Entering.{inside, one_piece, fifo_in-put_as_in}

read_bytes-one :
    (xs : List ℕ) (i : ℕ) → i < length xs → read_bytes xs i 1 ≡ some (get_or xs i 0 ∷ [])
read_bytes-one xs i h = ground (arith, take_one xs i h)
  where
    take_one : (xs : List ℕ) (i : ℕ) → i < length xs → take 1 (drop i xs) ≡ get_or xs i 0 ∷ []
    take_one [] i h = absurd (omega arith)
    take_one (x ∷ xs) zero h = refl
    take_one (x ∷ xs) (suc i) h = take_one xs i (omega arith)

read_bytes-none : (xs : List ℕ) (i : ℕ) → i ≤ length xs → read_bytes xs i 0 ≡ some []
read_bytes-none xs i h = ground arith

module _ (k : ℕ) (f : Fifo) (wf : IsFifo k f) where
  -- The ways of `copy_first` and `copy_rest` with what they read
  abbrev to_front : ℕ → Option (List ℕ) → Option (List ℕ)
  to_front old r = elim r [ none ↦ none | some bytes ↦ write_bytes (old ∷ []) 0 bytes ]

  abbrev back_to : List ℕ → ℕ → Option (List ℕ) → Option (List ℕ)
  back_to dst l r = elim r [ none ↦ none | some rest ↦ write_bytes dst l rest ]

  fifo_copy_out-one :
      (old : ℕ)
      → fifo_copy_out f (old ∷ []) 1 f.out ≡ some (get_or f.data_arr (bit_and f.out f.mask) 0 ∷ [])
  unfolding fifo_copy_out
  fifo_copy_out-one old =
      ap (λ l. copy_rest f (copy_first f.data_arr (old ∷ []) (bit_and f.out f.mask) l) l 1)
        (one_piece k f wf 1 f.out (omega arith))
      ∙ ap (λ r. copy_rest f (to_front old r) 1 1)
          (read_bytes-one f.data_arr (bit_and f.out f.mask) (inside k f wf f.out))
      ∙ ap (back_to (get_or f.data_arr (bit_and f.out f.mask) 0 ∷ []) 1)
          (read_bytes-none f.data_arr 0 (omega arith))

  fifo_copy_out-none : (old : ℕ) → fifo_copy_out f (old ∷ []) 0 f.out ≡ some (old ∷ [])
  unfolding fifo_copy_out
  fifo_copy_out-none old =
      ap (λ l. copy_rest f (copy_first f.data_arr (old ∷ []) (bit_and f.out f.mask) l) l 0)
        (one_piece k f wf 0 f.out (omega arith))
      ∙ ap (λ r. copy_rest f (to_front old r) 0 0)
          (read_bytes-none f.data_arr (bit_and f.out f.mask) (omega (arith, inside k f wf f.out)))
      ∙ ap (back_to (old ∷ []) 0) (read_bytes-none f.data_arr 0 (omega arith))

  empty_used : ltb (sub_word 32 f.inn f.out) 1 ≡ fifo_is_empty f
  unfolding fifo_is_empty
  empty_used = ground (arith, wf.inn_fits, wf.out_fits)

  -- `fifo_out` after the copy
  abbrev left : ℕ → Option (List ℕ) → Option (ℕ × List ℕ × Fifo)
  left len none = none
  left len (some copied) = some (len, copied, record f { out = wrap 32 (f.out + len) })

  fifo_out-eq :
      (old : ℕ)
      → let n = if ltb (sub_word 32 f.inn f.out) 1 then sub_word 32 f.inn f.out else 1 in
        fifo_out f (old ∷ []) 1 ≡ left n (fifo_copy_out f (old ∷ []) n f.out)
  unfolding fifo_out fifo_out_peek
  fifo_out-eq old =
      let n = if ltb (sub_word 32 f.inn f.out) 1 then sub_word 32 f.inn f.out else 1 in
      by_copy n (fifo_copy_out f (old ∷ []) n f.out)
    where
      by_copy :
          (n : ℕ) (r : Option (List ℕ))
          → (let s : Option (ℕ × List ℕ) = elim r [
            | none ↦ none
            | some copied ↦ some (n, copied)
          ] in
              let t : Option (ℕ × List ℕ × Fifo) = elim s [
                | none ↦ none
                | some (len, copied) ↦ some (len, copied, record f { out = wrap 32 (f.out + len) })
              ] in
              t)
            ≡ left n r
      by_copy n none = refl
      by_copy n (some copied) = refl

  left-none : (old : ℕ) → left 0 (some (old ∷ [])) ≡ some (0, old ∷ [], f)
  left-none old = ap (λ o. some (0, old ∷ [], record f { out = o })) (omega (arith, wf.out_fits))

  -- The answers of `fifo_get`, as `fifo_out` gives them
  abbrev got_as_out : ℕ → Bool → Option (ℕ × List ℕ × Fifo)
  got_as_out old ret = some (
    (if ret then 1 else 0),
    (if ret then get_or f.data_arr (bit_and f.out f.mask) 0 else old) ∷ [],
    (if ret then record f { out = wrap 32 (f.out + 1) } else f),
  )

  fifo_out-got_as_out : (old : ℕ) → fifo_out f (old ∷ []) 1 ≡ got_as_out old (not (fifo_is_empty f))
  fifo_out-got_as_out old = elim (Bool-cases (fifo_is_empty f)) [
    | inl empty ↦
        fifo_out-eq old
        ∙ ap (λ n. left n (fifo_copy_out f (old ∷ []) n f.out)) (nothing empty)
        ∙ ap (left 0) (fifo_copy_out-none old)
        ∙ left-none old
        ∙ ap (λ b. got_as_out old (not b)) (sym empty)
    | inr some_used ↦
        fifo_out-eq old
        ∙ ap (λ n. left n (fifo_copy_out f (old ∷ []) n f.out)) (a_byte some_used)
        ∙ ap (left 1) (fifo_copy_out-one old)
        ∙ ap (λ b. got_as_out old (not b)) (sym some_used)
  ]
    where
      nothing :
          fifo_is_empty f ≡ true
          → (if ltb (sub_word 32 f.inn f.out) 1 then sub_word 32 f.inn f.out else 1) ≡ 0
      nothing empty = ground (arith, empty_used)

      a_byte :
          fifo_is_empty f ≡ false
          → (if ltb (sub_word 32 f.inn f.out) 1 then sub_word 32 f.inn f.out else 1) ≡ 1
      a_byte some_used = ground (arith, empty_used)

-- On a ring of 2 ^ k bytes, `fifo_in` and `fifo_out` with one byte do what `fifo_put` and `fifo_get`
-- do, and their result is 1 exactly if these succeed; the copies stay inside the arrays.
pub fifo_in_out_one :
    (k : ℕ) (f : Fifo) (val : ℕ)
    → IsFifo k f
    → let (entered, f') = fifo_put f val in
      let (taken, got, f'') = fifo_get f val in
      (fifo_in f (val ∷ []) 1 ≡ some ((if entered then 1 else 0), f'))
      × (fifo_out f (val ∷ []) 1 ≡ some ((if taken then 1 else 0), got ∷ [], f''))
unfolding fifo_put fifo_get
fifo_in_out_one k f val wf = (fifo_in-put_as_in k f wf val, fifo_out-got_as_out k f wf val)
