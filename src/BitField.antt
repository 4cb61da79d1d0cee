-- ===== src/BitField.antt =====
-- The bit fields of utils/bitfield.
pub mod Range
pub mod Combine
pub mod Iter
pub mod Bits
pub mod Field
pub mod Rle
