-- ===== src/Backend.antt =====
-- pkg/inference/backend.go: the names of modes, the texts of statuses and the keep-alive times.
pub mod Forms
pub mod RoundTrip
mod Tests
