-- ===== src/Tombstone.antt =====
-- tombstone/: the deleted ranges of a series.
pub mod Interval
