-- ===== src/History.antt =====
-- include/observatory/history.hpp and src/history.cpp: a history of observations, read line by
-- line into a summary and the two newest observations of one target.
mod Model
mod Analyze
pub mod Ranking
pub mod Runs
pub mod Acceptance
pub mod Refusal
pub mod Answered
pub mod Report
pub use Model.*
unfoldable pub use Analyze.*
