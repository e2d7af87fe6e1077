-- ===== src/Acquisition.antt =====
-- Artifact acquisition: what a registry's metadata must satisfy before a package is fetched.
pub mod Model
mod Fields
mod Pypi
pub mod Names
pub mod Sorting
pub mod Releases
pub mod Selection
unfoldable pub use Model.*
unfoldable pub use Fields.*
unfoldable pub use Pypi.*
