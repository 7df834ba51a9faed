-- ===== src/Assets.antt =====
-- sdk/src/asset_handlers: where an asset keeps its manifest store.
pub mod Positions
pub mod Png
pub mod Trim
pub mod Html
pub mod Bound
pub mod Tests
pub mod HtmlTests
