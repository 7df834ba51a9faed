-- ===== src/Claim/Verify.antt =====
-- The verification of a claim, `Claim::verify_internal` of sdk/src/claim.rs, part by part.
pub mod Decoded
pub mod Head
pub mod Links
pub mod Bindings
pub mod Rules
pub mod Actions
pub mod Internal
