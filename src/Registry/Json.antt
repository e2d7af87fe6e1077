-- ===== src/Registry/Json.antt =====
-- The JSON values of the registry: UTF-8, the strict parser, and the canonical form.
mod Model
mod Utf8
mod Strings
mod Numbers
mod Parser
mod Writer
pub mod StringTrip
pub mod NumberTrip
pub mod Normal
pub mod Tokens
pub mod Heads
pub mod Steps
pub mod Ascii
pub mod Trip
pub mod Document
pub mod Canonical
pub mod Depth
pub mod Deep
pub mod Encoding
pub mod Characters
pub mod Decoded
pub mod NumberText
pub mod Leaves
pub mod Normalizes
pub mod Yields
pub mod Token
pub mod Total
unfoldable pub use Model.*
unfoldable pub use Utf8.*
unfoldable pub use Strings.*
unfoldable pub use Numbers.*
unfoldable pub use Parser.*
unfoldable pub use Writer.*
