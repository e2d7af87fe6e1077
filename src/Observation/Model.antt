-- ===== src/Observation/Model.antt =====
-- The records of include/observatory/observation.hpp.
use mcp_observatory.Prelude.{ℕ, Bytes, ◌*◌}
use mcp_observatory.Inventory.{InventoryLimits, Inventory, default_limits}

pub record ObservationLimits : Type 0 where
  pub max_bytes : ℕ
  pub max_identity_bytes : ℕ
  pub max_nesting_depth : ℕ
  pub inventory : InventoryLimits

abbrev pub default_observation_limits : ObservationLimits
default_observation_limits = record {
  max_bytes = 20 * 1024 * 1024;
  max_identity_bytes = 1024;
  max_nesting_depth = 64;
  inventory = default_limits;
}

pub record Observation : Type 0 where
  pub version : ℕ
  pub observed_at : Bytes
  pub target_id : Bytes
  pub source_type : Bytes
  pub sensor_name : Bytes
  pub sensor_version : Bytes
  pub configuration_profile : Bytes
  pub inventory : Inventory
  pub inventory_json : Bytes
