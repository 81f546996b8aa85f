-- ===== src/Word.antt =====
-- C's `unsigned int` as numbers below 2 ^ 32: the complement, and words as sets of bits. The
-- operators `&` and `|` are the native `bit_and` and `bit_or`; their laws go through `bit`.
mod Digits
mod Bits
mod Sets
unfoldable pub use Digits.{bit, word_size, complement, IsWord}
pub use Bits.*
pub use Sets.*
