-- ===== src/Responses.antt =====
-- pkg/responses/store.go: the store of responses with a time to live.
pub mod Store
pub mod Cleanup
pub mod History
pub mod Promise
mod Tests
