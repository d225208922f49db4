-- ===== src/Tsdbutil/Records.antt =====
-- The records of the write-ahead log, written and read back.
pub mod Loop
pub mod Written
pub mod Rounds
pub mod Ends
pub mod RoundTrip
