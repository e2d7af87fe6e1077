-- ===== src/Archive.antt =====
-- The archive of a package: its paths, its members and the fields of their headers.
mod Model
mod Paths
mod Octal
mod Tar
pub mod Parts
pub mod Segments
pub mod Sizes
pub mod Safety
pub mod Links
pub use Model.*
unfoldable pub use Paths.*
unfoldable pub use Octal.*
unfoldable pub use Tar.*
