-- ===== src/Core.antt =====
-- src/core/core.c and core.h: the hart. Only its registers and the instruction being decoded are
-- here; the instructions
-- that reach the trap registers or a CSR are not modelled.
pub mod State
pub mod Words
pub mod Wide
pub mod Prepare
pub mod Alu
pub mod AluW
pub mod Muldiv
pub mod Branch
pub mod Hart
pub mod Load
pub mod Atomic
pub mod Machine
pub mod System
pub mod Decode
pub mod Execution
pub mod Tables
pub mod Opcodes
pub mod Run
pub mod Interrupt
pub mod Init
pub mod Reach
