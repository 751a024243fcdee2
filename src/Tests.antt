-- ===== src/Tests.antt =====
-- The theorems of the library at concrete inputs.
pub mod Patterns
pub mod Page
pub mod Stream
pub mod Comparison
pub mod Transfers
pub mod Kept
pub mod Insight
pub mod Addresses
