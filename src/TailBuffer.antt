-- ===== src/TailBuffer.antt =====
-- pkg/tailbuffer/tailbuffer.go: a ring of bytes that keeps the last `capacity` of them.
mod Ring
pub mod Invariant
pub mod Walk
pub mod Refine
mod Tests
unfoldable pub use Ring.*
