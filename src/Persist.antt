-- ===== src/Persist.antt =====
-- The optional player store: package persist.
pub mod Memory
pub mod JsonFile
