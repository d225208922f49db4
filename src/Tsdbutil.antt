-- ===== src/Tsdbutil.antt =====
-- tsdbutil/: the buffers that records and index files are encoded into and decoded from.
pub mod EncBuf
pub mod DecBuf
pub mod RecordEncoder
pub mod RecordDecoder
pub mod Records
