-- ===== src/Trap.antt =====
-- src/core/trap/trap.h and trap.c: the trap registers behind three tables of pointers, and
-- what taking and leaving a trap does to them.
pub mod Regs
pub mod Irq
pub mod Alias
pub mod Pending
pub mod Stack
pub mod Serve
pub mod Delegation
