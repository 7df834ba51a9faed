-- ===== src/Jumbf/RoundTrip.antt =====
-- What the writer of sdk/src/jumbf/boxes.rs writes, its reader reads back.
pub mod Parts
pub mod Description
pub mod Content
pub mod Media
pub mod Found
pub mod Size
pub mod Leaf
pub mod Super
pub mod Store
pub mod Limits
