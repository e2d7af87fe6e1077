-- ===== src/Acquisition/Selection.antt =====
-- `select_pypi_sdist_artifact`: the one source distribution that it finds.
use mcp_observatory.Acquisition.Names.{normalize_pypi_project_name-IsNormal}
use mcp_observatory.Prelude.{
  Ensures-eq, leb, if◌then◌else◌, Bool-cases, leb→le, Bytes, length, All, ok, err, Ensures, holds,
  rejected, Ensures-bind, Ensures-weaken, Ensures-require, Ensures-branch, Ensures-then, ◌≤◌, ◌≡◌,
  refl, sym, inl, inr, Bool, false, not, ◌||◌, Option, none, some, List, [], ◌∷◌, ◌++◌,
  append_assoc, append-nil,
}
use mcp_observatory.Acquisition.Model.{
  ArtifactDescriptor, PypiReleaseFile, AcquisitionLimits, tar_gzip,
}
use mcp_observatory.Acquisition.Fields.{normalize_pypi_project_name}
use mcp_observatory.Acquisition.Pypi.{
  describe, pypi_tar_gzip_sdist, consider, consider_each, select_pypi_sdist_artifact, descriptor_of,
}
use mcp_observatory.Acquisition.Releases.{IsArtifact, validate_common-Ensures}

abbrev passed_over : PypiReleaseFile → Bool
passed_over file = file.yanked || not (pypi_tar_gzip_sdist file)

-- The source distributions in a compressed tar archive that are not yanked.
unfoldable pub selectable : List PypiReleaseFile → List PypiReleaseFile
selectable [] = []
selectable (file ∷ files) = if passed_over file then selectable files else file ∷ selectable files

abbrev as_list : Option PypiReleaseFile → List PypiReleaseFile
as_list none = []
as_list (some file) = file ∷ []

module _ (limits : AcquisitionLimits) (name version : Bytes) where
  abbrev Checked : List PypiReleaseFile → Type 0
  Checked files = All (λ file. IsArtifact limits (describe name version tar_gzip file)) files

  -- the files chosen, after some more files
  abbrev Chosen : List PypiReleaseFile → Option PypiReleaseFile → Type 0
  Chosen files r = (as_list r ≡ files) × Checked (as_list r)

  consider-Chosen :
      (selected : Option PypiReleaseFile) (file : PypiReleaseFile)
      → Checked (as_list selected)
      → Ensures
          (Chosen (as_list selected ++ selectable (file ∷ [])))
          (consider limits name version selected file)
  unfolding consider selectable
  consider-Chosen selected file h =
      Ensures-branch (passed_over file) (λ b. holds (rw b (sym (append-nil (as_list selected))), h))
        λ b.
          Ensures-then
            (validate_common-Ensures limits name version file.filename file.url file.sha256
              file.size)
            λ v.
              chosen selected b
                (v (describe name version tar_gzip file) refl refl refl refl refl refl)
    where
      chosen :
          (o : Option PypiReleaseFile)
          → passed_over file ≡ false
          → IsArtifact limits (describe name version tar_gzip file)
          → Ensures (Chosen (as_list o ++ (if passed_over file then [] else file ∷ []))) (elim o [
            | none ↦ ok (some file)
            | some other ↦
                err "PyPI release has multiple supported non-yanked tar-gzip source distributions"
          ])
      chosen none b v = holds (rw b refl, (v, tt))
      chosen (some other) b v = rejected

  selectable-cons :
      (file : PypiReleaseFile) (files : List PypiReleaseFile)
      → selectable (file ∷ files) ≡ selectable (file ∷ []) ++ selectable files
  unfolding selectable
  selectable-cons file files = elim (Bool-cases (passed_over file)) [
    | inl b ↦ rw b refl
    | inr b ↦ rw b refl
  ]

  selectable-nil : selectable [] ≡ []
  unfolding selectable
  selectable-nil = refl

  consider_each-Chosen :
      (selected : Option PypiReleaseFile) (files : List PypiReleaseFile)
      → Checked (as_list selected)
      → Ensures
          (Chosen (as_list selected ++ selectable files))
          (consider_each limits name version selected files)
  unfolding consider_each
  consider_each-Chosen selected [] h =
      holds (rw selectable-nil (sym (append-nil (as_list selected))), h)
  consider_each-Chosen selected (file ∷ files) h =
      Ensures-bind (consider-Chosen selected file h) λ next k.
        Ensures-weaken (consider_each-Chosen next files k.1) λ r j. (
          rw (j.0, k.0, selectable-cons file files)
              (append_assoc (as_list selected) (selectable (file ∷ [])) (selectable files)),
          j.1,
        )

-- The artifact that the selection may return.
pub record IsSelection (limits : AcquisitionLimits) (package_name version : Bytes)
    (files : List PypiReleaseFile) (d : ArtifactDescriptor) : Type 0 where
  pub name : Bytes
  pub normalized : normalize_pypi_project_name package_name ≡ ok name
  pub file : PypiReleaseFile
  pub only : selectable files ≡ file ∷ []
  pub described : d ≡ describe name version tar_gzip file
  pub artifact : IsArtifact limits d
  pub few : length files ≤ limits.maximum_release_files

descriptor_of-IsSelection :
    (limits : AcquisitionLimits) (package_name version : Bytes) (files : List PypiReleaseFile)
    (name : Bytes) (selected : Option PypiReleaseFile)
    → normalize_pypi_project_name package_name ≡ ok name
    → Chosen limits name version (selectable files) selected
    → length files ≤ limits.maximum_release_files
    → Ensures (IsSelection limits package_name version files) (descriptor_of name version selected)
unfolding descriptor_of
descriptor_of-IsSelection limits package_name version files name none n c few = rejected
descriptor_of-IsSelection limits package_name version files name (some f) n c few = holds (record {
  name = name;
  normalized = n;
  file = f;
  only = sym c.0;
  described = refl;
  artifact = c.1.0;
  few = few;
})

-- When `select_pypi_sdist_artifact` succeeds, the release has exactly one source distribution in a
-- compressed tar archive that is not yanked, and what it returns is the descriptor of that file
-- under the normalized project name, with all fields accepted.
pub select_pypi_sdist_artifact-IsSelection :
    (limits : AcquisitionLimits) (package_name version : Bytes) (files : List PypiReleaseFile)
    → Ensures
        (IsSelection limits package_name version files)
        (select_pypi_sdist_artifact limits package_name version files)
unfolding select_pypi_sdist_artifact
select_pypi_sdist_artifact-IsSelection limits package_name version files =
    Ensures-require (leb (length files) limits.maximum_release_files) _ λ few.
      Ensures-bind (Ensures-eq (normalize_pypi_project_name-IsNormal package_name)) λ name n.
        Ensures-bind (consider_each-Chosen limits name version none files tt) λ selected c.
          descriptor_of-IsSelection limits package_name version files name selected n c
            (leb→le _ _ few)
