-- ===== src/Manifest.antt =====
-- Target manifests: their records and the summary of a file.
mod Model
mod Parser
mod Reader
pub mod Records
pub mod Counts
pub use Model.*
unfoldable pub use Parser.*
unfoldable pub use Reader.*
