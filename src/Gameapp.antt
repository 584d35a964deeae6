-- ===== src/Gameapp.antt =====
-- The example game application on the framework: examples/gameapp.
pub mod Progress
pub mod Service
