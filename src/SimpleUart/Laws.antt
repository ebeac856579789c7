-- ===== src/SimpleUart/Laws.antt =====
-- The operations of src/peripherals/uart/simple_uart.c return and keep the two rings well-formed.
use riscv_em.Base.{
  ℕ, zero, suc, ◌<◌, sym, subst, Bool, true, false, not, ◌&&◌, ◌||◌, ◌==◌, if◌then◌else◌, Option,
  none, some, List, [], ◌∷◌, get_or, arith,
}
use riscv_em.Base.Words.{wrap}
use riscv_em.Base.Memory.{splice}
use riscv_em.Types.{rv_ok, BusAccessType, bus_read_access, bus_write_access, bus_instr_access}
use riscv_em.Fifo.{Fifo, fifo_len, fifo_is_empty, fifo_is_full, fifo_put}
use riscv_em.Fifo.Bulk.{fifo_in, fifo_out}
use riscv_em.Fifo.Queue.{IsFifo, fifo_put_lem, fifo_get_lem}
use riscv_em.Fifo.Single.{fifo_in_out_one}
use riscv_em.SimpleUart.{
  SimpleUart, uart_write, uart_read, simple_uart_bus_access, flush_loop, flush, trigger,
  simple_uart_update, simple_uart_add_rx_char,
}

-- An operation returns, and its result has the property.
pub data Returns {A : Type 0} (P : A → Type 0) : Option A → Type 0 where
  returned : (x : A) → P x → Returns P (some x)

-- Rings of 2 ^ k bytes
pub record IsUart (k : ℕ) (uart : SimpleUart) : Type 0 where
  pub rx_ring : IsFifo k uart.rx_fifo
  pub tx_ring : IsFifo k uart.tx_fifo

module _ (k : ℕ) where
  fifo_in-Returns :
      (f : Fifo) (val : ℕ)
      → IsFifo k f
      → Returns (λ (len, f'). IsFifo k f') (fifo_in f (val ∷ []) 1)
  fifo_in-Returns f val wf =
      let (shown, other) = fifo_in_out_one k f val wf in
      let (ret, f') = fifo_put f val in
      let (done, held, kept) = fifo_put_lem k f val wf in
      subst (Returns (λ (len, f'). IsFifo k f')) (sym shown) (returned _ kept)

  fifo_out-Returns :
      (f : Fifo) (val : ℕ)
      → IsFifo k f
      → Returns (λ (len, buf, f'). IsFifo k f') (fifo_out f (val ∷ []) 1)
  fifo_out-Returns f val wf =
      let (other, shown) = fifo_in_out_one k f val wf in
      let (done, held, kept) = fifo_get_lem k f val wf in
      subst (Returns (λ (len, buf, f'). IsFifo k f')) (sym shown) (returned _ kept)

-- A step that runs only on a result
andthen :
    {A B : Type 0} {P : A → Type 0} {Q : B → Type 0} (g : A → Option B) (r : Option A)
    → Returns P r
    → ((x : A) → P x → Returns Q (g x))
    → let t : Option B = elim r [ none ↦ none | some x ↦ g x ] in Returns Q t
andthen g _ (returned x p) next = next x p

module _ (k : ℕ) (uart : SimpleUart) (wf : IsUart k uart) where
  add_rx_char-Returns : (x : ℕ) → Returns (IsUart k) (simple_uart_add_rx_char uart x)
  unfolding simple_uart_add_rx_char
  add_rx_char-Returns x =
      andthen (λ (len, rx). some (record uart { rx_fifo = rx })) _
        (fifo_in-Returns k uart.rx_fifo x wf.rx_ring)
        λ p kept. returned _ (record { rx_ring = kept; tx_ring = wf.tx_ring })

  uart_write-Returns :
      (address val_u8 : ℕ) → address < 2 → Returns (IsUart k) (uart_write uart address val_u8)
  unfolding uart_write
  uart_write-Returns zero val_u8 h =
      andthen
        (λ (len, tx). some (record uart {
          tx_fifo = tx;
          tx_needs_flush = if val_u8 == 10 then 1 else uart.tx_needs_flush;
          tx_triggered = 0;
        }))
        _ (fifo_in-Returns k uart.tx_fifo val_u8 wf.tx_ring)
        λ p kept. returned _ (record { rx_ring = wf.rx_ring; tx_ring = kept })
  uart_write-Returns (suc zero) val_u8 h =
      returned _ (record { rx_ring = wf.rx_ring; tx_ring = wf.tx_ring })
  uart_write-Returns (suc (suc address)) val_u8 h = absurd (omega arith)

  uart_read-Returns :
      (address : ℕ)
      → address < 2
      → Returns (λ (bytes, next). IsUart k next) (uart_read uart address)
  unfolding uart_read
  uart_read-Returns zero h =
      andthen (λ (len, val_u8, rx). some (val_u8, record uart { rx_fifo = rx })) _
        (fifo_out-Returns k uart.rx_fifo 0 wf.rx_ring)
        λ p kept. returned _ (record { rx_ring = kept; tx_ring = wf.tx_ring })
  uart_read-Returns (suc zero) h = returned _ wf
  uart_read-Returns (suc (suc address)) h = absurd (omega arith)

flush_loop-Returns :
    (k n tmp_char : ℕ) (tx : Fifo)
    → IsFifo k tx
    → Returns (λ (printed, last). IsFifo k last) (flush_loop n tmp_char tx)
unfolding flush_loop
flush_loop-Returns k zero tmp_char tx wf = returned _ wf
flush_loop-Returns k (suc n) tmp_char tx wf =
    andthen
      (λ (len, buf, next). elim (flush_loop n (get_or buf 0 0) next) [
        | none ↦ none
        | some (printed, last) ↦ some (get_or buf 0 0 ∷ printed, last)
      ])
      _ (fifo_out-Returns k tx tmp_char wf)
      λ (len, buf, next) kept.
        andthen (λ (printed, last). some (get_or buf 0 0 ∷ printed, last)) _
          (flush_loop-Returns k n (get_or buf 0 0) next kept) λ p whole. returned _ whole

module _ (k : ℕ) (uart : SimpleUart) (wf : IsUart k uart) where
  flush-Returns : Returns (λ (printed, next). IsUart k next) (flush uart)
  unfolding flush
  flush-Returns = by_test (fifo_is_full uart.tx_fifo || not (uart.tx_needs_flush == 0))
    where
      by_test :
          (b : Bool)
          → Returns
              (λ (printed, next). IsUart k next)
              (if b
                then elim (flush_loop (wrap 8 (fifo_len uart.tx_fifo)) 0 uart.tx_fifo) [
                  | none ↦ none
                  | some (printed, tx) ↦
                      some (printed, record uart { tx_fifo = tx; tx_needs_flush = 0 })
                ]
                else some ([], uart))
      by_test true =
          andthen
            (λ (printed, tx). some (printed, record uart { tx_fifo = tx; tx_needs_flush = 0 })) _
            (flush_loop-Returns k (wrap 8 (fifo_len uart.tx_fifo)) 0 uart.tx_fifo wf.tx_ring)
            λ p kept. returned _ (record { rx_ring = wf.rx_ring; tx_ring = kept })
      by_test false = returned _ wf

  trigger-IsUart : IsUart k (let (irq, next) = trigger uart in next)
  unfolding trigger
  trigger-IsUart =
      by_tests (not (uart.rx_irq_enabled == 0) && fifo_is_full uart.rx_fifo)
        (not (uart.tx_irq_enabled == 0) && fifo_is_empty uart.tx_fifo)
    where
      by_tests :
          (b c : Bool)
          → let (irq, next) : Bool × SimpleUart =
              if b
              then (true, record uart { rx_triggered = 1 })
              else if c
              then (true, record uart { tx_triggered = 1 })
              else (false, uart) in
            IsUart k next
      by_tests true c = record { rx_ring = wf.rx_ring; tx_ring = wf.tx_ring }
      by_tests false true = record { rx_ring = wf.rx_ring; tx_ring = wf.tx_ring }
      by_tests false false = wf

module _ (k : ℕ) (uart : SimpleUart) (wf : IsUart k uart) where
  update-Returns : Returns (λ (irq, printed, next). IsUart k next) (simple_uart_update uart)
  unfolding simple_uart_update
  update-Returns =
      andthen
        (λ (printed, flushed).
          let (irq_trigger, next) = trigger flushed in some (irq_trigger, printed, next))
        _ (flush-Returns k uart wf)
        λ (printed, flushed) kept. returned _ (trigger-IsUart k flushed kept)

  bus_access-Returns :
      (access_type : BusAccessType) (address : ℕ) (value : List ℕ)
      → address < 2
      → Returns
          (λ (ret, next, buf). IsUart k next)
          (simple_uart_bus_access uart access_type address value 1)
  unfolding simple_uart_bus_access
  bus_access-Returns bus_write_access address value h =
      andthen (λ next. some (rv_ok, next, value)) _
        (uart_write-Returns k uart wf address (get_or value 0 0) h) λ next kept. returned _ kept
  bus_access-Returns bus_read_access address value h =
      andthen (λ (bytes, next). some (rv_ok, next, splice value 0 bytes)) _
        (uart_read-Returns k uart wf address h) λ p kept. returned _ kept
  bus_access-Returns bus_instr_access address value h =
      andthen (λ (bytes, next). some (rv_ok, next, splice value 0 bytes)) _
        (uart_read-Returns k uart wf address h) λ p kept. returned _ kept

-- From a port whose rings are well-formed, a received byte, an access of one byte to one of the two
-- registers and an update return, without an end of the program or a copy beyond an array, and
-- leave the rings well-formed.
pub simple_uart-Returns :
    (k : ℕ) (uart : SimpleUart) (x : ℕ) (access_type : BusAccessType) (address : ℕ) (value : List ℕ)
    → IsUart k uart
    → address < 2
    → Returns (IsUart k) (simple_uart_add_rx_char uart x)
      × Returns
          (λ (ret, next, buf). IsUart k next)
          (simple_uart_bus_access uart access_type address value 1)
      × Returns (λ (irq, printed, next). IsUart k next) (simple_uart_update uart)
simple_uart-Returns k uart x access_type address value wf h = (
  add_rx_char-Returns k uart wf x,
  bus_access-Returns k uart wf access_type address value h,
  update-Returns k uart wf,
)
