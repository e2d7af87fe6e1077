-- ===== src/Package.antt =====
-- What the analysis checks of a package file: its digest, and the version that the registry names.
pub mod Base64
pub mod RoundTrip
pub mod Versions
pub mod Spelling
pub mod Components
pub mod Labels
pub mod Spelled
pub mod Equivalence
pub mod Integrity
pub mod Hex
pub mod Verified
