-- ===== src/Base.antt =====
-- base/: encodings of numbers.
pub mod Endian
