-- ===== src/Logs.antt =====
-- The merge of the service log and the engine log: pkg/logs/merge.go.
pub mod Merge
pub mod Advance
pub mod Both
pub mod Lossless
pub mod Times
pub mod Order
mod Tests
