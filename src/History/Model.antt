-- ===== src/History/Model.antt =====
-- The records of include/observatory/history.hpp.
use mcp_observatory.Prelude.{ℕ, Bytes, ◌*◌, String, Option}
use mcp_observatory.Observation.{ObservationLimits, Observation, default_observation_limits}

pub record HistoryLimits : Type 0 where
  pub max_line_bytes : ℕ
  pub max_records : ℕ
  pub max_targets : ℕ
  pub observation : ObservationLimits

abbrev pub default_history_limits : HistoryLimits
default_history_limits = record {
  max_line_bytes = 20 * 1024 * 1024;
  max_records = 100_000;
  max_targets = 10_000;
  observation = default_observation_limits;
}

pub record HistorySummary : Type 0 where
  pub records : ℕ
  pub targets : ℕ
  pub earliest_observed_at : Bytes
  pub latest_observed_at : Bytes

pub record TargetHistory : Type 0 where
  pub records : ℕ
  pub previous : Option Observation
  pub latest : Option Observation

pub record HistoryError : Type 0 where
  pub line : ℕ
  pub message : String

pub record HistoryResult : Type 0 where
  pub summary : HistorySummary
  pub target : TargetHistory
  pub error : Option HistoryError
