-- ===== src/Status.antt =====
-- sdk/src/status_tracker, validation_status.rs and validation_results.rs: the log of a validation
-- and the results that are made of it.
pub mod LogItem
pub mod Tracker
pub mod Log
pub mod Codes
pub mod ValidationStatus
pub mod ValidationResults
pub mod State
pub mod Flat
pub mod Verdict
pub mod Tests
