-- ===== src/Hashing.antt =====
-- sdk/src/utils/hash_utils.rs, sdk/src/utils/merkle.rs and the Merkle check of
-- sdk/src/assertions/bmff_hash.rs.
pub mod Hasher
pub mod Merkle
pub mod Check
pub mod Proof
pub mod Ranges
pub mod Select
pub mod Exclusions
pub mod DataHash
pub mod Binding
pub mod BoxHash
pub mod Tests
pub mod RangesTests
pub mod BoxTests
