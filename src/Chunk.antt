-- ===== src/Chunk.antt =====
-- chunk/: the bit stream, and the XOR chunks that are written to it and read from it.
pub mod BitStream
pub mod DeleteIterator
pub mod Zeros
pub mod XorAppender
pub mod XorIterator
pub mod XorChunk
