-- ===== src/Flags.antt =====
-- pkg/inference/runtime_flags.go and pkg/inference/runtime_flags_allowlist.go: the check of the
-- runtime flags that a user gives to a backend.
pub mod LlamaCpp
pub mod Vllm
pub mod Validate
pub mod Safe
pub mod Accept
pub mod Refuse
pub mod Lists
mod Tests
