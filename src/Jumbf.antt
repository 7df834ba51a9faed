-- ===== src/Jumbf.antt =====
-- sdk/src/jumbf: the JUMBF boxes, their writer and reader, and the JUMBF URIs.
pub mod Labels
pub mod Utf8
pub mod Boxes
pub mod Write
pub mod Header
pub mod ReadDescription
pub mod ReadContent
pub mod ReadSuper
pub mod RoundTrip
pub mod Tests
