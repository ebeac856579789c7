-- ===== src/Pmp.antt =====
-- src/core/pmp/pmp.h and pmp.c: physical memory protection.
pub mod Csr
pub mod Check
pub mod Locked
pub mod Trace
pub mod Napot
pub mod Priority
