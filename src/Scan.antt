-- ===== src/Scan.antt =====
-- The lexical layer that src/inventory.cpp, src/observation.cpp and src/target_manifest.cpp each
-- have a copy of: spaces, strings, numbers and the skipping of unknown JSON values. The copies
-- differ in the messages and spaces that `Dialect` holds. A position in the text is the text from
-- there on.
mod Lexer
mod Skip
mod Members
pub mod Tail
pub mod Fuel
pub mod Rounds
pub mod Plain
unfoldable pub use Lexer.*
unfoldable pub use Skip.*
unfoldable pub use Members.*
