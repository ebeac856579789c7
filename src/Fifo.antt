-- ===== src/Fifo.antt =====
-- src/helpers/fifo.h and fifo.c: a ring of bytes with two counters that are never reduced to the
-- ring. `unsigned int` has 32 bits. A copy beyond an array gives no result.
pub mod Ring
pub mod Queue
pub mod Bulk
pub mod Entering
pub mod Single
use riscv_em.Base.{ℕ, ◌+◌, ◌-◌, bit_and, Bool, not, ltb, ◌==◌, if◌then◌else◌, List, get_or, set}
use riscv_em.Base.Words.{wrap, sub_word}

-- `fifo_t`; `inn` is its `in`.
pub record Fifo : Type 0 where
  pub inn : ℕ
  pub out : ℕ
  pub mask : ℕ
  pub size : ℕ
  pub data_arr : List ℕ

unfoldable pub fifo_unused : Fifo → ℕ
fifo_unused f = sub_word 32 (wrap 32 (f.mask + 1)) (sub_word 32 f.inn f.out)

unfoldable pub fifo_init : List ℕ → ℕ → Fifo
fifo_init data_arr data_arr_size = record {
  inn = 0;
  out = 0;
  mask = sub_word 32 data_arr_size 1;
  size = data_arr_size;
  data_arr = data_arr;
}

unfoldable pub fifo_reset : Fifo → Fifo
fifo_reset f = record f { inn = 0; out = 0 }

unfoldable pub fifo_size : Fifo → ℕ
fifo_size f = wrap 32 (f.mask + 1)

unfoldable pub fifo_len : Fifo → ℕ
fifo_len f = sub_word 32 f.inn f.out

unfoldable pub fifo_is_empty : Fifo → Bool
fifo_is_empty f = f.inn == f.out

unfoldable pub fifo_is_full : Fifo → Bool
fifo_is_full f = ltb f.mask (fifo_len f)

unfoldable pub fifo_free : Fifo → ℕ
fifo_free f = fifo_unused f

-- The results are `ret` and the ring.
unfoldable pub fifo_put : Fifo → ℕ → Bool × Fifo
fifo_put f val =
    let ret = not (fifo_is_full f) in
    (
      ret,
      (if ret
          then record f {
            data_arr = set f.data_arr (bit_and f.inn f.mask) val;
            inn = wrap 32 (f.inn + 1);
          }
          else f),
    )

-- The results are `ret`, `*val`, which is `old` before, and the ring.
unfoldable pub fifo_get : Fifo → ℕ → Bool × ℕ × Fifo
fifo_get f old =
    let ret = not (fifo_is_empty f) in
    (
      ret,
      (if ret then get_or f.data_arr (bit_and f.out f.mask) 0 else old),
      (if ret then record f { out = wrap 32 (f.out + 1) } else f),
    )
