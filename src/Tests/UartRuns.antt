-- ===== src/Tests/UartRuns.antt =====
-- src/peripherals/uart/simple_uart.c on concrete accesses.
use riscv_em.Base.{arith, ℕ, ◌≡◌, refl, Bool, true, Option, none, some, List, [], ◌∷◌}
use riscv_em.Types.{rv_ok, bus_read_access, bus_write_access}
use riscv_em.Fifo.{fifo_init, fifo_len, fifo_is_full, fifo_is_empty, fifo_unused}
use riscv_em.Fifo.Bulk.{fifo_in, fifo_out, fifo_out_peek, fifo_copy_in, fifo_copy_out, first_piece}
use riscv_em.Fifo.Queue.{IsFifo}
use riscv_em.SimpleUart.Laws.{Returns, IsUart, simple_uart-Returns}
use riscv_em.SimpleUart.{
  simple_uart_init, simple_uart_bus_access, uart_write, uart_read, uart_status, simple_uart_update,
  flush, flush_loop, trigger, simple_uart_add_rx_char,
}

-- Both rings are empty at first, which the status shows.
status_run :
    simple_uart_bus_access simple_uart_init bus_read_access 1 (0 ∷ []) 1
    ≡ some (rv_ok, simple_uart_init, 5 ∷ [])
unfolding simple_uart_bus_access uart_read uart_status fifo_is_empty fifo_init
status_run = refl

-- The byte received, and what a read of it gives
received_run :
    (let t : Option (List ℕ) = elim (simple_uart_add_rx_char simple_uart_init 65) [
      | none ↦ none
      | some uart ↦ elim (simple_uart_bus_access uart bus_read_access 0 (7 ∷ []) 1) [
        | none ↦ none
        | some (ret, next, value) ↦ some value
      ]
    ] in
      t)
    ≡ some (65 ∷ [])
unfolding simple_uart_add_rx_char simple_uart_bus_access uart_read fifo_in fifo_out fifo_out_peek
    fifo_copy_in fifo_copy_out first_piece fifo_unused fifo_init
received_run = refl

-- The byte written is printed, and the sender is then ready.
printed_run :
    (let t : Option (Bool × List ℕ) =
        elim (simple_uart_bus_access
          (record simple_uart_init { tx_irq_enabled = 1 })
          bus_write_access
          0
          (66 ∷ [])
          1) [
            | none ↦ none
            | some (ret, next, value) ↦ elim (simple_uart_update next) [
              | none ↦ none
              | some (irq, printed, last) ↦ some (irq, printed)
            ]
          ] in
      t)
    ≡ some (true, 66 ∷ [])
unfolding simple_uart_bus_access uart_write simple_uart_update flush flush_loop trigger fifo_in
    fifo_out fifo_out_peek fifo_copy_in fifo_copy_out first_piece fifo_unused fifo_init fifo_len
    fifo_is_full fifo_is_empty
printed_run = refl

init-IsUart : IsUart 0 simple_uart_init
unfolding fifo_init
init-IsUart = record { rx_ring = ring; tx_ring = ring }
  where
    ring : IsFifo 0 (fifo_init (0 ∷ []) 1)
    ring = record {
      width = omega arith;
      mask_is = refl;
      room = refl;
      inn_fits = omega arith;
      out_fits = omega arith;
      used_fits = omega arith;
    }

simple_uart-Returns_example :
    Returns (IsUart 0) (simple_uart_add_rx_char simple_uart_init 65)
    × Returns
        (λ (ret, next, buf). IsUart 0 next)
        (simple_uart_bus_access simple_uart_init bus_write_access 0 (66 ∷ []) 1)
    × Returns (λ (irq, printed, next). IsUart 0 next) (simple_uart_update simple_uart_init)
simple_uart-Returns_example =
    simple_uart-Returns 0 simple_uart_init 65 bus_write_access 0 (66 ∷ []) init-IsUart (omega arith)
