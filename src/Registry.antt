-- ===== src/Registry.antt =====
-- The registry collector: its policy, its clock, its retries and its addresses.
pub mod Json
pub mod Policy
pub mod Deadlines
pub mod Retry
pub mod Address
pub mod Url
pub mod Endpoint
pub mod Clock
pub mod Servers
pub mod Encoding
