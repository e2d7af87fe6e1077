-- ===== src/Tests/Releases.antt =====
-- Acquisition: the theorems at a concrete release.
use mathlib.Core.List.{Perm}
use mcp_observatory.Prelude.{
  Bytes, ascii, length, null, All, ok, Ensures, ◌≤◌, ◌≡◌, refl, true, false, List, [], ◌∷◌,
}
use mcp_observatory.Acquisition.{
  PypiReleaseFile, default_acquisition_limits, ascii_alphanumeric, name_step, name_loop,
  normalize_pypi_project_name, make_pypi_artifact_descriptors, select_pypi_sdist_artifact,
}
use mcp_observatory.Acquisition.Names.{IsNormal, normalize_pypi_project_name-IsNormal}
use mcp_observatory.Acquisition.Sorting.{IsListed}
use mcp_observatory.Acquisition.Releases.{
  IsArtifact, published, make_pypi_artifact_descriptors-Published,
}
use mcp_observatory.Acquisition.Selection.{IsSelection, select_pypi_sdist_artifact-IsSelection}

abbrev project : Bytes
unfolding ascii
project = ascii "Foo__Bar.b"

normalized : normalize_pypi_project_name project ≡ ok (ascii "foo-bar-b")
unfolding ascii ascii_alphanumeric name_step name_loop normalize_pypi_project_name
normalized = refl

normalize_pypi_project_name-IsNormal_example :
    Ensures
      (λ n. IsNormal n × (normalize_pypi_project_name n ≡ ok n))
      (normalize_pypi_project_name project)
normalize_pypi_project_name-IsNormal_example = normalize_pypi_project_name-IsNormal project

abbrev hash : Bytes
unfolding ascii
hash = ascii "0123456789abcdef0123456789abcdef0123456789abcdef0123456789abcdef"

abbrev wheel : PypiReleaseFile
unfolding ascii
wheel = record {
  filename = ascii "foo-1.whl";
  package_type = ascii "bdist_wheel";
  url = ascii "https://h/foo-1.whl";
  sha256 = hash;
  size = 10;
  yanked = false;
}

abbrev source : PypiReleaseFile
unfolding ascii
source = record {
  filename = ascii "foo-1.tgz";
  package_type = ascii "sdist";
  url = ascii "https://h/foo-1.tgz";
  sha256 = hash;
  size = 20;
  yanked = false;
}

abbrev release : List PypiReleaseFile
release = wheel ∷ source ∷ record wheel { yanked = true } ∷ []

abbrev version : Bytes
version = b'1' ∷ []

make_pypi_artifact_descriptors-Published_example :
    Ensures
      (λ ds.
        Perm ds (published project version release)
        × IsListed ds
        × All (IsArtifact default_acquisition_limits) ds
        × (length release ≤ default_acquisition_limits.maximum_release_files)
        × (null (published project version release) ≡ false))
      (make_pypi_artifact_descriptors default_acquisition_limits project version release)
make_pypi_artifact_descriptors-Published_example =
    make_pypi_artifact_descriptors-Published default_acquisition_limits project version release

select_pypi_sdist_artifact-IsSelection_example :
    Ensures
      (IsSelection default_acquisition_limits project version release)
      (select_pypi_sdist_artifact default_acquisition_limits project version release)
select_pypi_sdist_artifact-IsSelection_example =
    select_pypi_sdist_artifact-IsSelection default_acquisition_limits project version release
