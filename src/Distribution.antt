-- ===== src/Distribution.antt =====
-- The store of models of pkg/distribution: references to models, the index of the store and the
-- operations on it.
pub mod Reference
pub mod Hash
pub mod HashLaws
pub mod Index
pub mod LocalStore
pub mod Tagging
pub mod Normal
pub mod Failure
pub mod Blobs
pub mod Resume
pub mod Verified
pub mod Downloads
pub mod Attempts
pub mod Completion
pub mod Range
pub mod RangeLaws
pub mod Write
pub mod Rollback
pub mod Complete
pub mod Kept
pub mod Published
pub mod Completeness
pub mod Mistaken
mod Tests
mod ParserTests
mod TransferTests
mod WriteTests
