-- ===== src/Acquisition/Model.antt =====
-- The types of include/observatory/acquisition.hpp.
use mcp_observatory.Prelude.{ℕ, Bytes, ascii, Bool}

pub data ArtifactRegistry : Type 0 where
  npm pypi : ArtifactRegistry

pub data ArtifactArchiveFormat : Type 0 where
  tar_gzip zip : ArtifactArchiveFormat

pub record ArtifactDescriptor : Type 0 where
  pub registry : ArtifactRegistry
  pub archive_format : ArtifactArchiveFormat
  pub package_name : Bytes
  pub package_version : Bytes
  pub filename : Bytes
  pub download_url : Bytes
  pub sha256 : Bytes
  pub published_size : ℕ

pub record NpmArtifactInput : Type 0 where
  pub package_name : Bytes
  pub package_version : Bytes
  pub tarball_url : Bytes
  pub sha256 : Bytes
  pub published_size : ℕ

pub record PypiReleaseFile : Type 0 where
  pub filename : Bytes
  pub package_type : Bytes
  pub url : Bytes
  pub sha256 : Bytes
  pub size : ℕ
  pub yanked : Bool

pub record AcquisitionLimits : Type 0 where
  pub maximum_release_files : ℕ
  pub maximum_artifact_bytes : ℕ

abbrev pub default_acquisition_limits : AcquisitionLimits
default_acquisition_limits = record {
  maximum_release_files = 256;
  maximum_artifact_bytes = 33554432;
}

unfoldable pub artifact_registry_name : ArtifactRegistry → Bytes
artifact_registry_name npm = ascii "npm"
artifact_registry_name pypi = ascii "pypi"

unfoldable pub archive_format_name : ArtifactArchiveFormat → Bytes
archive_format_name tar_gzip = ascii "tar_gzip"
archive_format_name zip = ascii "zip"
