-- ===== src/Manifest/Model.antt =====
-- The types of include/observatory/target_manifest.hpp.
use mcp_observatory.Prelude.{ℕ, Bytes, String, Option}

pub data TargetKind : Type 0 where
  local_package remote_endpoint : TargetKind

pub record TargetRecord : Type 0 where
  pub schema_version : ℕ
  pub target_id : Bytes
  pub source_type : Bytes
  pub kind : TargetKind

pub record ReadLimits : Type 0 where
  pub max_line_bytes : ℕ
  pub max_records : ℕ

abbrev pub default_read_limits : ReadLimits
default_read_limits = record { max_line_bytes = 65536; max_records = 10000 }

pub record ManifestSummary : Type 0 where
  pub records : ℕ
  pub local_packages : ℕ
  pub remote_endpoints : ℕ

pub record ManifestError : Type 0 where
  pub line : ℕ
  pub message : String

pub record ManifestResult : Type 0 where
  pub summary : ManifestSummary
  pub error : Option ManifestError
