-- ===== src/Limit.antt =====
-- Rate limits: package limit.
pub mod TokenBucket
