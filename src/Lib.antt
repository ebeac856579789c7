-- ===== src/Lib.antt =====
-- A model of riscv_em, an emulator of a RISC-V system (RV32 and RV64) written in C.
--
-- Parts of the program. The hart (src/core/core.c) fetches an instruction over the memory
-- management unit, takes it apart by a table of preparation callbacks and runs one callback for it.
-- Every access that leaves the hart passes the memory management unit (src/core/mmu) and the
-- physical memory protection (src/core/pmp), and reaches a device on the bus. The control and status
-- registers (src/core/csr) call back into the trap unit (src/core/trap), the protection and the
-- memory management. After each step the interruptor (src/peripherals/clint) and the interrupt
-- controller (src/peripherals/plic) give the interrupt lines to the trap unit, which decides at which
-- level an interrupt or an exception is served.
--
-- Files.
--   Base: lists as C arrays, tests on numbers, binary digits, words, copies of bytes.
--   Types: src/core/riscv_types.h. The build is an argument, Arch, in place of the macro RV64.
--   Helper: the macros and bit functions of src/core/riscv_helper.h; Helper.Laws reads them digit
--     by digit.
--   Trap: src/core/trap. Regs has the registers, the pointer tables of trap_init as pointers
--     into them, and the CSR callbacks; Irq has trap_set_pending_bits,
--     trap_check_interrupt_pending, trap_check_exception_delegation, trap_serve_interrupt and
--     trap_restore_irq_settings. Alias, Pending, Stack, Serve and Delegation hold the proofs.
--   Pmp: src/core/pmp. Csr has the CSR callbacks, Check has pmp_mem_check. Locked, Trace, Napot and
--     Priority hold the proofs.
--   Clint: src/peripherals/clint, with its proofs in Clint.Laws.
--   Plic: src/peripherals/plic, the structure's words as bytes on the bus and the loops that choose an
--     interrupt, with its proofs in Plic.Laws.
--   Fifo: src/helpers/fifo.c, with the operations on many bytes in Bulk; Ring, Queue, Entering and
--     Single hold the proofs.
--   SimpleUart: src/peripherals/uart/simple_uart.c on two rings of Fifo, with its proofs in
--     SimpleUart.Laws.
--   Mmu: src/core/mmu: the registers and mmu_virt_to_phys. Table describes page tables on their own;
--     Leaf, Walk, Translate and Invariant hold the proofs.
--   Csr: src/core/csr, with the callbacks that the core stores as one data type and the units behind
--     them in one record; its proofs are in Csr.Laws.
--   Core: src/core/core.c. State has the fields of rv_core_td that the instructions use, Hart the
--     reservation, Words the signed readings of a word, Wide the double-width products of
--     src/core/riscv_helper.h. Alu, AluW and Muldiv have the instructions on registers, Branch the
--     jumps and branches, Load the loads and stores, Atomic the atomic instructions, Prepare the
--     preparation callbacks. The instructions that reach memory take mmu_checked_bus_access as an
--     argument, and Hart.IsMemory says that a range of addresses behind it is memory in the states that
--     are ready; Machine.Memory shows it of that function in machine mode. Machine has that function,
--     with the rest of rv_core_td; System the CSR instructions and the returns from traps; Decode the
--     search in the opcode tables, which Tables and Opcodes write down, with the numbers of
--     src/core/riscv_instr.h; Execution the type of execute_cb; Run has rv_core_run, Interrupt
--     rv_core_process_interrupts, Init rv_core_init. Reach has the states that calls of these three
--     lead to. The children and Reach hold the proofs.
--   Tests: concrete runs.
--
-- Numbers. Every C integer is a natural number, and its width is written out where the C code
-- converts or wraps. Signed arithmetic is on two's complement words; the C code relies on the
-- compilers' wrap and arithmetic shift there. `none` stands for what C leaves undefined (a null
-- pointer's use, a shift of an int that is too far, a copy beyond an array), in the jumps, in the
-- serial port and in decoding for the end of the program in die_msg, and for the loop without end in
-- URET. Behind an access the machine itself is an Option: `none` once an undefined shift was met, and
-- it stays.
--
-- Loops. The loops have a fixed number of rounds, which the recursion counts down: the bytes and
-- registers of the protection unit, the four privilege levels and the value below them in the trap
-- unit, the bits of a word in __builtin_ffsl, the two levels of page tables, the twelve interrupts,
-- the eight registers of 32 interrupts in the interrupt controller, the bytes that a serial port
-- sends. The search in the opcode tables goes down the tables themselves. So no result depends on a
-- bound that may be too small.
--
-- Not modelled: the serial port of uart_8250.c and the example system, which is where rv_core_run and
-- rv_core_process_interrupts are called; the older translation that the build leaves out; the
-- program's input and output, but for the bytes that simple_uart_update prints, which are a result;
-- the tests.
pub mod Base
pub mod Types
pub mod Helper
pub mod Mmu
pub mod Csr
pub mod Trap
pub mod Pmp
pub mod Clint
pub mod Plic
pub mod SimpleUart
pub mod Fifo
pub mod Core
pub mod Tests
