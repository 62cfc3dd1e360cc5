-- ===== src/Prelude/Bits.antt =====
-- `&`, `|` and the shifts of machine words as arithmetic: digit laws for fields of any width, and
-- tables over the 256 bytes for single-bit tests.
mod Digits
mod Bytes
pub use Digits.*
pub use Bytes.*
