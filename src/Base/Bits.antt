-- ===== src/Base/Bits.antt =====
-- Binary digits of the native numbers, and how the bit operations act on each digit.
mod Digits
mod Shifts
mod Pieces
pub use Digits.*
pub use Shifts.*
pub use Pieces.*
