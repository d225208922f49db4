-- ===== src/Head.antt =====
-- head/HeadUtils.hpp: the parts of the head of the database.
pub mod MemSeries
