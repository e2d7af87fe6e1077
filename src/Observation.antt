-- ===== src/Observation.antt =====
-- include/observatory/observation.hpp and src/observation.cpp: observations, read from a stream
-- and appended to a history.
mod Model
mod Timestamp
mod Compact
mod Parser
mod Reader
mod Writer
pub mod WellFormed
pub mod Reading
pub use Model.*
unfoldable pub use Timestamp.*
unfoldable pub use Compact.*
unfoldable pub use Parser.*
unfoldable pub use Reader.*
unfoldable pub use Writer.*
