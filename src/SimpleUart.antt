-- ===== src/SimpleUart.antt =====
-- src/peripherals/uart/simple_uart.h and simple_uart.c: a serial port with a receiver and a sender of
-- one byte each. Every operation holds the lock from its start to its end, so it is one step, and the
-- lock has no field. `none` is the end of the program in die_msg, or a copy beyond an array.
pub mod Laws
use riscv_em.Base.{
  ℕ, zero, suc, ◌*◌, ◌^◌, Bool, true, false, not, ◌&&◌, ◌||◌, ◌==◌, if◌then◌else◌, Option, none,
  some, List, [], ◌∷◌, get_or, bit_or,
}
use riscv_em.Base.Words.{wrap}
use riscv_em.Base.Memory.{splice}
use riscv_em.Helper.{extract}
use riscv_em.Types.{RvRet, rv_ok, BusAccessType, bus_write_access}
use riscv_em.Fifo.{Fifo, fifo_init, fifo_len, fifo_is_empty, fifo_is_full}
use riscv_em.Fifo.Bulk.{fifo_in, fifo_out}

-- `simple_uart_td`; the bytes of each ring are in the ring.
pub record SimpleUart : Type 0 where
  pub rx_triggered : ℕ
  pub rx_fifo : Fifo
  pub rx_irq_enabled : ℕ
  pub tx_triggered : ℕ
  pub tx_fifo : Fifo
  pub tx_irq_enabled : ℕ
  pub tx_needs_flush : ℕ

abbrev pub simple_uart_init : SimpleUart
simple_uart_init = record {
  rx_triggered = 0;
  rx_fifo = fifo_init (0 ∷ []) 1;
  rx_irq_enabled = 0;
  tx_triggered = 0;
  tx_fifo = fifo_init (0 ∷ []) 1;
  tx_irq_enabled = 0;
  tx_needs_flush = 0;
}

-- A write of the byte `val_u8`
unfoldable pub uart_write : SimpleUart → ℕ → ℕ → Option SimpleUart
uart_write uart address val_u8 =
    if address == 0
    then elim (fifo_in uart.tx_fifo (val_u8 ∷ []) 1) [
      | none ↦ none
      | some (len, tx) ↦ some (record uart {
        tx_fifo = tx;
        tx_needs_flush = if val_u8 == 10 then 1 else uart.tx_needs_flush;
        tx_triggered = 0;
      })
    ]
    else if address == 1
    then some (record uart {
      rx_irq_enabled = extract 8 val_u8 1 1;
      tx_irq_enabled = extract 8 val_u8 3 1;
    })
    else none

abbrev pub flag : Bool → ℕ
flag b = if b then 1 else 0

-- `val_u8` of the status register
unfoldable pub uart_status : SimpleUart → ℕ
uart_status uart =
    let v0 = flag (fifo_is_empty uart.rx_fifo) in
    let v1 = wrap 8 (bit_or v0 (flag (fifo_is_empty uart.tx_fifo) * 2 ^ 2)) in
    let v2 = wrap 8 (bit_or v1 (uart.rx_irq_enabled * 2 ^ 1)) in
    wrap 8 (bit_or v2 (uart.tx_irq_enabled * 2 ^ 3))

-- A read gives the byte that is copied to `value`.
unfoldable pub uart_read : SimpleUart → ℕ → Option (List ℕ × SimpleUart)
uart_read uart address =
    if address == 0
    then elim (fifo_out uart.rx_fifo (0 ∷ []) 1) [
      | none ↦ none
      | some (len, val_u8, rx) ↦ some (val_u8, record uart { rx_fifo = rx })
    ]
    else if address == 1
    then some (uart_status uart ∷ [], uart)
    else none

-- The buffer `value` is a list of bytes; the result has the device and the buffer afterwards.
unfoldable pub simple_uart_bus_access :
    SimpleUart → BusAccessType → ℕ → List ℕ → ℕ → Option (RvRet × SimpleUart × List ℕ)
simple_uart_bus_access uart access_type address value len =
    if len == 1
    then elim access_type [
      | bus_write_access ↦ elim (uart_write uart address (get_or value 0 0)) [
        | none ↦ none
        | some next ↦ some (rv_ok, next, value)
      ]
      | _ ↦ elim (uart_read uart address) [
        | none ↦ none
        | some (bytes, next) ↦ some (rv_ok, next, splice value 0 bytes)
      ]
    ]
    else none

-- The loop over the bytes to send, `n` to go, with `tmp_char`. The results are the bytes printed and
-- the ring.
unfoldable pub flush_loop : ℕ → ℕ → Fifo → Option (List ℕ × Fifo)
flush_loop zero tmp_char tx = some ([], tx)
flush_loop (suc n) tmp_char tx = elim (fifo_out tx (tmp_char ∷ []) 1) [
  | none ↦ none
  | some (len, buf, next) ↦ elim (flush_loop n (get_or buf 0 0) next) [
    | none ↦ none
    | some (printed, last) ↦ some (get_or buf 0 0 ∷ printed, last)
  ]
]

-- The results are the bytes printed and the device.
unfoldable pub flush : SimpleUart → Option (List ℕ × SimpleUart)
flush uart =
    if fifo_is_full uart.tx_fifo || not (uart.tx_needs_flush == 0)
    then elim (flush_loop (wrap 8 (fifo_len uart.tx_fifo)) 0 uart.tx_fifo) [
      | none ↦ none
      | some (printed, tx) ↦ some (printed, record uart { tx_fifo = tx; tx_needs_flush = 0 })
    ]
    else some ([], uart)

-- The interrupt line, and the device
unfoldable pub trigger : SimpleUart → Bool × SimpleUart
trigger uart =
    if not (uart.rx_irq_enabled == 0) && fifo_is_full uart.rx_fifo
    then (true, record uart { rx_triggered = 1 })
    else if not (uart.tx_irq_enabled == 0) && fifo_is_empty uart.tx_fifo
    then (true, record uart { tx_triggered = 1 })
    else (false, uart)

-- The results are the interrupt line, the bytes printed and the device.
unfoldable pub simple_uart_update : SimpleUart → Option (Bool × List ℕ × SimpleUart)
simple_uart_update uart = elim (flush uart) [
  | none ↦ none
  | some (printed, flushed) ↦
      let (irq_trigger, next) = trigger flushed in some (irq_trigger, printed, next)
]

unfoldable pub simple_uart_add_rx_char : SimpleUart → ℕ → Option SimpleUart
simple_uart_add_rx_char uart x = elim (fifo_in uart.rx_fifo (x ∷ []) 1) [
  | none ↦ none
  | some (len, rx) ↦ some (record uart { rx_fifo = rx })
]
