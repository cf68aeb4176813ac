-- ===== src/Bytes.antt =====
-- Byte strings (std::string and std::string_view): lists of numbers, one to a byte.
mod Order
pub mod Words
pub mod Slices
unfoldable pub use Order.*
