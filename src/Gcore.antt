-- ===== src/Gcore.antt =====
-- gcore: the optional game components.
pub mod Protocol
pub mod Room
pub mod Aoi
