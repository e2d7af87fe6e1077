-- ===== src/Acquisition/Fields.antt =====
-- The checks of one field, `normalize_pypi_project_name` and `make_npm_artifact_descriptor` of
-- src/acquisition.cpp.
use mcp_observatory.Prelude.{
  ℕ, ltb, leb, ◌==◌, within, if◌then◌else◌, Bytes, ascii, length, null, drop, all, starts_with,
  ends_with, has_byte, until_byte, after_last, front, back, Outcome, ok, err, require, ◌>>=◌, ◌>>◌,
  ◌+◌, ◌-◌, String, Bool, true, false, not, ◌&&◌, ◌||◌, [], ◌∷◌, ◌++◌,
}
use mcp_observatory.Acquisition.Model.{
  ArtifactDescriptor, NpmArtifactInput, AcquisitionLimits, npm, tar_gzip,
}

abbrev pub is_upper : ℕ → Bool
is_upper c = within b'A' b'Z' c

unfoldable pub ascii_alphanumeric : ℕ → Bool
ascii_alphanumeric c = within b'a' b'z' c || is_upper c || within b'0' b'9' c

abbrev is_secure : Bytes → Bool
is_secure value = starts_with value (ascii "https://") && ltb 8 (length value)

abbrev is_loopback : Bytes → Bool
is_loopback value =
    starts_with value (ascii "http://127.0.0.1:") || starts_with value (ascii "http://localhost:")

-- from the end of the scheme to the next slash
abbrev authority : Bytes → Bytes
authority value = until_byte b'/' (drop (if is_secure value then 8 else 7) value)

unfoldable pub valid_https_url : Bytes → Bool
valid_https_url value =
    (is_secure value || is_loopback value)
    && not (has_byte b'#' value)
    && not (null (authority value))
    && not (has_byte b'@' (authority value))

-- `std::isxdigit` in the C locale
abbrev is_xdigit : ℕ → Bool
is_xdigit c = within b'0' b'9' c || within b'A' b'F' c || within b'a' b'f' c

unfoldable pub valid_sha256 : Bytes → Bool
valid_sha256 value = length value == 64 && all is_xdigit value

unfoldable pub valid_identity : Bytes → Bool
valid_identity value =
    not (null value) && leb (length value) 512 && all (λ c. leb 33 c && not (c == 127)) value

unfoldable pub validate_common :
    AcquisitionLimits → Bytes → Bytes → Bytes → Bytes → Bytes → ℕ → Outcome (Unit {0})
validate_common limits package_name package_version filename url sha256 size = do
  require (valid_identity package_name && valid_identity package_version)
      "package name and version must be non-empty bounded visible strings"
  require (valid_identity filename && not (has_byte b'/' filename) && not (has_byte b'\\' filename))
      "artifact filename must be a bounded basename"
  require (valid_https_url url) "artifact URL must be HTTPS without credentials or fragment"
  require (valid_sha256 sha256) "artifact SHA-256 must contain exactly 64 hexadecimal characters"
  require (not (size == 0) && leb size limits.maximum_artifact_bytes)
      "artifact size is zero or exceeds the configured acquisition limit"

-- the separators of a project name
abbrev pub is_separator : ℕ → Bool
is_separator c = c == b'.' || c == b'_' || c == b'-'

abbrev pub to_lower : ℕ → ℕ
to_lower c = if is_upper c then (c - b'A') + b'a' else c

abbrev pub unsupported : String
unsupported = "PyPI project name contains an unsupported character"

-- the body of the loop, from the name so far and the flag `separator`
unfoldable pub name_step : Bytes → Bool → ℕ → Outcome (Bytes × Bool)
name_step out separator c =
    if ascii_alphanumeric c
    then ok (out ++ to_lower c ∷ [], false)
    else if is_separator c
    then ok ((if separator then out else out ++ b'-' ∷ []), true)
    else err unsupported

unfoldable pub name_loop : Bytes → Bool → Bytes → Outcome Bytes
name_loop out separator [] = ok out
name_loop out separator (c ∷ s) = do
  (out', separator') ← name_step out separator c
  name_loop out' separator' s

abbrev pub bad_project_name : String
bad_project_name =
    "PyPI project name must be a bounded name beginning and ending with a letter or digit"

unfoldable pub normalize_pypi_project_name : Bytes → Outcome Bytes
normalize_pypi_project_name package_name = do
  require
      (not (null package_name)
        && leb (length package_name) 512
        && ascii_alphanumeric (front package_name)
        && ascii_alphanumeric (back package_name))
      bad_project_name
  name_loop [] false package_name

unfoldable pub make_npm_artifact_descriptor :
    AcquisitionLimits → NpmArtifactInput → Outcome ArtifactDescriptor
make_npm_artifact_descriptor limits i = do
  require (ends_with (after_last b'/' i.tarball_url) (ascii ".tgz"))
      "npm artifact URL must name a .tgz archive"
  validate_common limits i.package_name i.package_version (after_last b'/' i.tarball_url)
      i.tarball_url i.sha256 i.published_size
  ok (record {
    registry = npm;
    archive_format = tar_gzip;
    package_name = i.package_name;
    package_version = i.package_version;
    filename = after_last b'/' i.tarball_url;
    download_url = i.tarball_url;
    sha256 = i.sha256;
    published_size = i.published_size;
  })
