-- ===== src/Acquisition/Pypi.antt =====
-- `make_pypi_artifact_descriptors` and `select_pypi_sdist_artifact` of src/acquisition.cpp.
use mcp_observatory.Prelude.{
  leb, if◌then◌else◌, Bytes, ascii, length, null, equal, before, ends_with, Outcome, ok, err,
  require, ◌>>=◌, ◌>>◌, Bool, true, false, not, ◌&&◌, ◌||◌, Option, none, some, List, [], ◌∷◌, ◌++◌,
}
use mcp_observatory.Acquisition.Model.{
  ArtifactArchiveFormat, ArtifactDescriptor, PypiReleaseFile, AcquisitionLimits, pypi, tar_gzip,
  zip,
}
use mcp_observatory.Acquisition.Fields.{validate_common, normalize_pypi_project_name}

abbrev is_sdist : PypiReleaseFile → Bool
is_sdist file = equal file.package_type (ascii "sdist")

abbrev is_tar_gzip : PypiReleaseFile → Bool
is_tar_gzip file =
    ends_with file.filename (ascii ".tar.gz") || ends_with file.filename (ascii ".tgz")

unfoldable pub pypi_format : PypiReleaseFile → Option ArtifactArchiveFormat
pypi_format file =
    if equal file.package_type (ascii "bdist_wheel") && ends_with file.filename (ascii ".whl")
    then some zip
    else if not (is_sdist file)
    then none
    else if is_tar_gzip file
    then some tar_gzip
    else if ends_with file.filename (ascii ".zip")
    then some zip
    else none

unfoldable pub pypi_tar_gzip_sdist : PypiReleaseFile → Bool
pypi_tar_gzip_sdist file = is_sdist file && is_tar_gzip file

abbrev pub describe : Bytes → Bytes → ArtifactArchiveFormat → PypiReleaseFile → ArtifactDescriptor
describe package_name package_version format file = record {
  registry = pypi;
  archive_format = format;
  package_name = package_name;
  package_version = package_version;
  filename = file.filename;
  download_url = file.url;
  sha256 = file.sha256;
  published_size = file.size;
}

abbrev pub validate_file : AcquisitionLimits → Bytes → Bytes → PypiReleaseFile → Outcome (Unit {0})
validate_file limits package_name package_version file =
    validate_common limits package_name package_version file.filename file.url file.sha256 file.size

-- whether the set of pairs of a file name and a hash has the pair
unfoldable pub has_identity : Bytes → Bytes → List (Bytes × Bytes) → Bool
has_identity filename sha256 [] = false
has_identity filename sha256 ((f, h) ∷ rest) =
    (equal f filename && equal h sha256) || has_identity filename sha256 rest

-- `identities` and `descriptors`
abbrev pub Found : Type 0
Found = List (Bytes × Bytes) × List ArtifactDescriptor

-- the body of the loop for a file of a supported format
unfoldable pub add_file :
    AcquisitionLimits
    → Bytes
    → Bytes
    → Found
    → PypiReleaseFile
    → ArtifactArchiveFormat
    → Outcome Found
add_file limits name version (identities, descriptors) file format = do
  validate_file limits name version file
  require (not (has_identity file.filename file.sha256 identities))
      "duplicate PyPI release artifact identity"
  ok (
    (file.filename, file.sha256) ∷ identities,
    descriptors ++ describe name version format file ∷ [],
  )

-- `if (file.yanked) continue; if (!pypi_format(file, format)) continue;`
abbrev pub supported : PypiReleaseFile → Option ArtifactArchiveFormat
supported file = if file.yanked then none else pypi_format file

unfoldable pub on_file : AcquisitionLimits → Bytes → Bytes → Found → PypiReleaseFile → Outcome Found
on_file limits name version found file = elim (supported file) [
  | none ↦ ok found
  | some format ↦ add_file limits name version found file format
]

unfoldable pub each_file :
    AcquisitionLimits → Bytes → Bytes → Found → List PypiReleaseFile → Outcome Found
each_file limits name version found [] = ok found
each_file limits name version found (file ∷ files) = do
  found' ← on_file limits name version found file
  each_file limits name version found' files

-- `<` and `==` of `ArtifactArchiveFormat`
abbrev pub format_before : ArtifactArchiveFormat → ArtifactArchiveFormat → Bool
format_before tar_gzip zip = true
format_before _ _ = false

-- `<` of the tuples of format, file name and hash
unfoldable pub precedes : ArtifactDescriptor → ArtifactDescriptor → Bool
precedes left right =
    format_before left.archive_format right.archive_format
    || (not (format_before right.archive_format left.archive_format)
        && (before left.filename right.filename
            || (equal left.filename right.filename && before left.sha256 right.sha256)))

-- `std::sort`: the keys are distinct, so there is one sorted order
unfoldable pub place : ArtifactDescriptor → List ArtifactDescriptor → List ArtifactDescriptor
place d [] = d ∷ []
place d (x ∷ xs) = let rest = place d xs in if precedes d x then d ∷ x ∷ xs else x ∷ rest

unfoldable pub sort_descriptors : List ArtifactDescriptor → List ArtifactDescriptor
sort_descriptors [] = []
sort_descriptors (d ∷ ds) = place d (sort_descriptors ds)

unfoldable pub make_pypi_artifact_descriptors :
    AcquisitionLimits → Bytes → Bytes → List PypiReleaseFile → Outcome (List ArtifactDescriptor)
make_pypi_artifact_descriptors limits name version files = do
  require (leb (length files) limits.maximum_release_files) "PyPI release contains too many files"
  (identities, descriptors) ← each_file limits name version ([], []) files
  require (not (null descriptors))
      "PyPI release has no supported non-yanked wheel or source distribution"
  ok (sort_descriptors descriptors)

-- the body of the loop of `select_pypi_sdist_artifact`, on `selected`
unfoldable pub consider :
    AcquisitionLimits
    → Bytes
    → Bytes
    → Option PypiReleaseFile
    → PypiReleaseFile
    → Outcome (Option PypiReleaseFile)
consider limits name version selected file =
    if file.yanked || not (pypi_tar_gzip_sdist file) then ok selected else do
      validate_file limits name version file
      elim selected [
        | none ↦ ok (some file)
        | some other ↦
            err "PyPI release has multiple supported non-yanked tar-gzip source distributions"
      ]

unfoldable pub consider_each :
    AcquisitionLimits
    → Bytes
    → Bytes
    → Option PypiReleaseFile
    → List PypiReleaseFile
    → Outcome (Option PypiReleaseFile)
consider_each limits name version selected [] = ok selected
consider_each limits name version selected (file ∷ files) = do
  selected' ← consider limits name version selected file
  consider_each limits name version selected' files

unfoldable pub descriptor_of : Bytes → Bytes → Option PypiReleaseFile → Outcome ArtifactDescriptor
descriptor_of name version none =
    err "PyPI release has no supported non-yanked tar-gzip source distribution"
descriptor_of name version (some file) = ok (describe name version tar_gzip file)

unfoldable pub select_pypi_sdist_artifact :
    AcquisitionLimits → Bytes → Bytes → List PypiReleaseFile → Outcome ArtifactDescriptor
select_pypi_sdist_artifact limits package_name version files = do
  require (leb (length files) limits.maximum_release_files) "PyPI release contains too many files"
  name ← normalize_pypi_project_name package_name
  selected ← consider_each limits name version none files
  descriptor_of name version selected
