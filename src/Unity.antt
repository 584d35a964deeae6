-- ===== src/Unity.antt =====
-- The Unity example: package examples/unity.
pub mod Varint
pub mod Fields
pub mod Messages
pub mod World
mod Examples
