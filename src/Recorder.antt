-- ===== src/Recorder.antt =====
-- The recorder of requests and responses: pkg/metrics/openai_recorder.go.
pub mod Json
pub mod Streams
pub mod Anthropic
pub mod Truncate
pub mod Records
pub mod Joining
pub mod Answer
pub mod Runs
pub mod Window
pub mod Settled
pub mod Validity
mod Tests
