-- ===== src/Fifo/Bulk.antt =====
-- src/helpers/fifo.c: the operations that copy several bytes, in at most two pieces. A copy beyond
-- an array gives `none`.
use riscv_em.Base.{ℕ, ◌+◌, ◌-◌, bit_and, ltb, if◌then◌else◌, Option, none, some, List}
use riscv_em.Base.Words.{wrap, sub_word}
use riscv_em.Base.Memory.{write_bytes, read_bytes}
use riscv_em.Fifo.{Fifo, fifo_unused}

-- The length of the first piece, of `len` bytes from `off` on
unfoldable pub first_piece : Fifo → ℕ → ℕ → ℕ
first_piece f len off =
    let l = sub_word 32 (wrap 32 (f.mask + 1)) off in if ltb len l then len else l

-- The two copies of `fifo_copy_out`, the first one of `l` bytes from `offs`
abbrev pub copy_first : List ℕ → List ℕ → ℕ → ℕ → Option (List ℕ)
copy_first data_arr dst offs l = elim (read_bytes data_arr offs l) [
  | none ↦ none
  | some bytes ↦ write_bytes dst 0 bytes
]

abbrev pub copy_rest : Fifo → Option (List ℕ) → ℕ → ℕ → Option (List ℕ)
copy_rest f none l len = none
copy_rest f (some dst) l len = elim (read_bytes f.data_arr 0 (len - l)) [
  | none ↦ none
  | some rest ↦ write_bytes dst l rest
]

-- The result is `dst`.
unfoldable pub fifo_copy_out : Fifo → List ℕ → ℕ → ℕ → Option (List ℕ)
fifo_copy_out f dst len off =
    let offs = bit_and off f.mask in
    let l = first_piece f len offs in copy_rest f (copy_first f.data_arr dst offs l) l len

-- The results are `len` and `buf`.
unfoldable pub fifo_out_peek : Fifo → List ℕ → ℕ → Option (ℕ × List ℕ)
fifo_out_peek f buf len =
    let l = sub_word 32 f.inn f.out in
    let len' = if ltb l len then l else len in
    elim (fifo_copy_out f buf len' f.out) [ none ↦ none | some copied ↦ some (len', copied) ]

-- `n` has 64 bits, and `len` of `fifo_out_peek` 32. The results are `len`, `buf` and the ring.
unfoldable pub fifo_out : Fifo → List ℕ → ℕ → Option (ℕ × List ℕ × Fifo)
fifo_out f buf n = elim (fifo_out_peek f buf (wrap 32 n)) [
  | none ↦ none
  | some (len, copied) ↦ some (len, copied, record f { out = wrap 32 (f.out + len) })
]

-- The two copies of `fifo_copy_in`, the first one of `l` bytes to `offs`
abbrev pub copy_back : Option (List ℕ) → List ℕ → ℕ → ℕ → Option (List ℕ)
copy_back none src l len = none
copy_back (some stored) src l len = elim (read_bytes src l (len - l)) [
  | none ↦ none
  | some rest ↦ write_bytes stored 0 rest
]

abbrev pub copy_front : List ℕ → List ℕ → ℕ → ℕ → Option (List ℕ)
copy_front data_arr src offs l = elim (read_bytes src 0 l) [
  | none ↦ none
  | some bytes ↦ write_bytes data_arr offs bytes
]

-- The result is the array of the ring.
unfoldable pub fifo_copy_in : Fifo → List ℕ → ℕ → ℕ → Option (List ℕ)
fifo_copy_in f src len off =
    let offs = bit_and off f.mask in
    let l = first_piece f len offs in copy_back (copy_front f.data_arr src offs l) src l len

-- The results are `len` and the ring.
unfoldable pub fifo_in : Fifo → List ℕ → ℕ → Option (ℕ × Fifo)
fifo_in f buf len =
    let l = fifo_unused f in
    let len' = if ltb l len then l else len in
    elim (fifo_copy_in f buf len' f.inn) [
      | none ↦ none
      | some stored ↦ some (len', record f { data_arr = stored; inn = wrap 32 (f.inn + len') })
    ]
