-- ===== src/Dict.antt =====
-- Python's `dict`: an association list in insertion order, over keys with a decidable equality.
mod Defs
mod Laws
mod Sizes
mod Items
unfoldable pub use Defs.*
pub use Laws.*
pub use Sizes.*
pub use Items.*
