-- ===== src/Tests.antt =====
-- Concrete runs: the theorems applied to inputs that the code meets.
mod TrapRuns
mod PmpRuns
mod ClintRuns
mod CoreRuns
mod AtomicRuns
mod FifoRuns
mod SystemRuns
mod MmuRuns
mod PlicRuns
mod UartRuns
