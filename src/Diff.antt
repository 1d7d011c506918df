-- ===== src/Diff.antt =====
-- diff_engine.py: two responses of one endpoint compared.
pub mod Flatten
pub mod Similarity
pub mod Compare
