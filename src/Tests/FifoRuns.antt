-- ===== src/Tests/FifoRuns.antt =====
-- A ring of four bytes of src/helpers/fifo.c whose counters are about to wrap.
use riscv_em.Base.{
  some, ◌≡◌, ◌^◌, refl, ltb, ◌==◌, not, if◌then◌else◌, [], ◌∷◌, ◌++◌, length, arith,
}
use riscv_em.Fifo.{Fifo, fifo_put, fifo_get, fifo_unused}
use riscv_em.Fifo.Bulk.{fifo_in, fifo_out, fifo_copy_in, fifo_copy_out, fifo_out_peek, first_piece}
use riscv_em.Fifo.Single.{fifo_in_out_one}
use riscv_em.Fifo.Queue.{IsFifo, contents, fifo_put_lem, fifo_get_lem}

-- Two bytes are in it, 7 at position 3 and 8 at position 0.
abbrev wrapping : Fifo
wrapping = record {
  inn = 1;
  out = 0xFFFFFFFF;
  mask = 3;
  size = 4;
  data_arr = 8 ∷ (0 ∷ (0 ∷ (7 ∷ [])));
}

wrapping-IsFifo : IsFifo 2 wrapping
wrapping-IsFifo = record {
  width = omega arith;
  mask_is = refl;
  room = refl;
  inn_fits = omega arith;
  out_fits = omega arith;
  used_fits = omega arith;
}

contents_run : contents 2 wrapping ≡ 7 ∷ (8 ∷ [])
contents_run = refl

fifo_put_lem_example :
    let (ret, f') = fifo_put wrapping 9 in
    (ret ≡ ltb (length (contents 2 wrapping)) (2 ^ 2))
    × (contents 2 f' ≡ (if ret then contents 2 wrapping ++ (9 ∷ []) else contents 2 wrapping))
    × IsFifo 2 f'
fifo_put_lem_example = fifo_put_lem 2 wrapping 9 wrapping-IsFifo

fifo_get_lem_example :
    let (ret, val, f') = fifo_get wrapping 0 in
    (ret ≡ not (length (contents 2 wrapping) == 0))
    × (contents 2 wrapping ≡ (if ret then val ∷ contents 2 f' else []))
    × IsFifo 2 f'
fifo_get_lem_example = fifo_get_lem 2 wrapping 0 wrapping-IsFifo

fifo_in_out_one_example :
    let (entered, f') = fifo_put wrapping 9 in
    let (taken, got, f'') = fifo_get wrapping 9 in
    (fifo_in wrapping (9 ∷ []) 1 ≡ some ((if entered then 1 else 0), f'))
    × (fifo_out wrapping (9 ∷ []) 1 ≡ some ((if taken then 1 else 0), got ∷ [], f''))
fifo_in_out_one_example = fifo_in_out_one 2 wrapping 9 wrapping-IsFifo

-- Three bytes go in where two have room, and two come out across the end of the array.
in_run :
    fifo_in wrapping (1 ∷ (2 ∷ (3 ∷ []))) 3
    ≡ some (2, record wrapping { inn = 3; data_arr = 8 ∷ (1 ∷ (2 ∷ (7 ∷ []))) })
unfolding fifo_in fifo_copy_in fifo_unused first_piece
in_run = refl

out_run :
    fifo_out wrapping (0 ∷ (0 ∷ (0 ∷ []))) 3
    ≡ some (2, 7 ∷ (8 ∷ (0 ∷ [])), record wrapping { out = 1 })
unfolding fifo_out fifo_out_peek fifo_copy_out first_piece
out_run = refl
