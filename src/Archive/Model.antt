-- ===== src/Archive/Model.antt =====
-- `ArchiveLimits` of include/observatory/analyze.hpp, and the locals of `parse_ustar` of
-- src/analyze.cpp.
use mcp_observatory.Prelude.{Bytes, ℕ, List}

pub record ArchiveLimits : Type 0 where
  pub maximum_files : ℕ
  pub maximum_total_uncompressed_bytes : ℕ
  pub maximum_individual_file_bytes : ℕ
  pub maximum_tarball_bytes : ℕ
  pub maximum_evidence_snippet_bytes : ℕ
  pub maximum_analyzer_output_bytes : ℕ

abbrev pub default_archive_limits : ArchiveLimits
default_archive_limits = record {
  maximum_files = 10000;
  maximum_total_uncompressed_bytes = 67108864;
  maximum_individual_file_bytes = 8388608;
  maximum_tarball_bytes = 33554432;
  maximum_evidence_snippet_bytes = 240;
  maximum_analyzer_output_bytes = 16777216;
}

pub record TarMember : Type 0 where
  pub path : Bytes
  pub typeflag : ℕ
  pub size : ℕ
  pub linkname : Bytes
  pub content : Bytes
  pub mode : ℕ

-- the members so far, and the bytes of data in them
pub record TarState : Type 0 where
  pub members : List TarMember
  pub total : ℕ
