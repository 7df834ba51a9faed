-- ===== src/Claim.antt =====
-- The assertions of a claim, sdk/src/claim.rs and sdk/src/assertion.rs: their labels and instances, and the
-- store that keeps them.
pub mod Decimal
pub mod Labels
pub mod Parts
pub mod Assertion
pub mod Store
pub mod Unique
pub mod Redact
pub mod Update
pub mod Check
pub mod Verify
pub mod Tests
pub mod VerifyTests
pub mod UpdateTests
