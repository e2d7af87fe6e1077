-- ===== src/Inventory.antt =====
-- include/observatory/inventory.hpp and src/inventory.cpp: tool inventories, and how two of them
-- are compared.
mod Model
mod Parser
mod Reader
mod Compare
pub mod Changes
pub mod WellFormed
pub mod Reading
pub use Model.*
unfoldable pub use Parser.*
unfoldable pub use Reader.*
unfoldable pub use Compare.*
