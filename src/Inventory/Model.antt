-- ===== src/Inventory/Model.antt =====
-- The records of include/observatory/inventory.hpp.
use mcp_observatory.Prelude.{ℕ, ◌*◌, Bytes, Bool, List, not, ◌&&◌, null}

pub record InventoryLimits : Type 0 where
  pub max_bytes : ℕ
  pub max_tools : ℕ
  pub max_nesting_depth : ℕ
  pub max_tool_name_bytes : ℕ

abbrev pub default_limits : InventoryLimits
default_limits = record {
  max_bytes = 16 * 1024 * 1024;
  max_tools = 1024;
  max_nesting_depth = 64;
  max_tool_name_bytes = 1024;
}

pub record InventoryTool : Type 0 where
  pub name : Bytes
  pub canonical_definition : Bytes

pub record Inventory : Type 0 where
  pub version : ℕ
  pub downstream_executable : Bytes
  pub tools : List InventoryTool

pub record ModifiedTool : Type 0 where
  pub name : Bytes

pub record InventoryDiff : Type 0 where
  pub executable_changed : Bool
  pub added : List Bytes
  pub removed : List Bytes
  pub modified : List ModifiedTool

abbrev pub identical : InventoryDiff → Bool
identical d = not d.executable_changed && null d.added && null d.removed && null d.modified
