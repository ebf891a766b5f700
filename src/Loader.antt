-- ===== src/Loader.antt =====
-- pkg/inference/scheduling/loader.go: loading and unloading of backend runners.
pub mod Keys
pub mod State
pub mod Evict
pub mod Load
pub mod Release
pub mod Invariant
pub mod Eviction
pub mod Shrink
pub mod Reserve
pub mod Rounds
pub mod Loop
pub mod Operations
pub mod Configure
pub mod Steps
pub mod Loading
pub mod Reach
pub mod Waiting
pub mod Reasons
pub mod IdleCheck
pub mod Leases
pub mod Protect
pub mod InUse
pub mod Held
pub mod Unloading
pub mod Reuse
pub mod Configuring
mod Tests
mod LeaseTests
