-- ===== src/Index.antt =====
-- index/: the lists of series that a label matches.
pub mod Postings
pub mod ListPostings
pub mod IntersectPostings
pub mod SubtractionPostings
pub mod UnionPostings
