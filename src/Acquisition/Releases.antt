-- ===== src/Acquisition/Releases.antt =====
-- The release files that `make_pypi_artifact_descriptors` and `select_pypi_sdist_artifact` choose.
use mathlib.Core.List.{Perm}
use mcp_observatory.Prelude.{
  has_byte, Ensures, Ensures-require, ◌≤◌, true, false, ◌≡◌, ◌==◌, &&-eq-true, leb→le,
  not-true→false, Bytes, Ensures-test, Ensures-then, ℕ, not, arith, leb, ◌&&◌, All, All-concat,
  equal_iff, none, some, List, [], ◌∷◌, ◌++◌, holds, refl, length, null, equal_refl, ok,
  Ensures-bind, Ensures-weaken, sym, subst, append-nil, append_assoc, ap, ◌∙◌, if◌then◌else◌, ascii,
  equal, ends_with, Bool, ◌||◌, Option,
}
use mcp_observatory.Acquisition.Model.{
  ArtifactDescriptor, AcquisitionLimits, ArtifactArchiveFormat, PypiReleaseFile, pypi, tar_gzip,
  zip,
}
use mcp_observatory.Acquisition.Fields.{
  valid_identity, valid_https_url, valid_sha256, validate_common,
}
use mcp_observatory.Acquisition.Pypi.{
  describe, pypi_format, has_identity, Found, add_file, supported, on_file, each_file,
  sort_descriptors, make_pypi_artifact_descriptors,
}
use mcp_observatory.Acquisition.Sorting.{
  Differs, IsDistinct, sort_descriptors-Perm, All-sort_descriptors, sort_descriptors-IsAscending,
  IsListed, IsAscending-IsListed,
}

-- An artifact that may be fetched.
pub record IsArtifact (limits : AcquisitionLimits) (d : ArtifactDescriptor) : Type 0 where
  pub package_name : valid_identity d.package_name ≡ true
  pub package_version : valid_identity d.package_version ≡ true
  pub filename : valid_identity d.filename ≡ true
  pub no_slash : has_byte b'/' d.filename ≡ false
  pub no_backslash : has_byte b'\\' d.filename ≡ false
  pub url : valid_https_url d.download_url ≡ true
  pub sha256 : valid_sha256 d.sha256 ≡ true
  pub nonempty : 1 ≤ d.published_size
  pub bounded : d.published_size ≤ limits.maximum_artifact_bytes

pub validate_common-Ensures :
    (limits : AcquisitionLimits) (name version filename url sha256 : Bytes) (size : ℕ)
    → Ensures
        (λ u.
          (d : ArtifactDescriptor)
          → d.package_name ≡ name
          → d.package_version ≡ version
          → d.filename ≡ filename
          → d.download_url ≡ url
          → d.sha256 ≡ sha256
          → d.published_size ≡ size
          → IsArtifact limits d)
        (validate_common limits name version filename url sha256 size)
unfolding validate_common
validate_common-Ensures limits name version filename url sha256 size =
    Ensures-require (valid_identity name && valid_identity version) _ λ names.
      Ensures-require
        (valid_identity filename && not (has_byte b'/' filename) && not (has_byte b'\\' filename)) _
        λ file. Ensures-require (valid_https_url url) _ λ link.
          Ensures-require (valid_sha256 sha256) _ λ hash.
            Ensures-test (not (size == 0) && leb size limits.maximum_artifact_bytes) _
              λ bytes d n v f u h s. record {
                package_name = rw n (&&-eq-true _ _ names).0;
                package_version = rw v (&&-eq-true _ _ names).1;
                filename = rw f (&&-eq-true _ _ (&&-eq-true _ _ file).0).0;
                no_slash = rw f (not-true→false _ (&&-eq-true _ _ (&&-eq-true _ _ file).0).1);
                no_backslash = rw f (not-true→false _ (&&-eq-true _ _ file).1);
                url = rw u link;
                sha256 = rw h hash;
                nonempty = positive s (&&-eq-true _ _ bytes).0;
                bounded = rw s (leb→le _ _ (&&-eq-true _ _ bytes).1);
              }
  where
    positive : {n : ℕ} → n ≡ size → not (size == 0) ≡ true → 1 ≤ n
    positive e t = ground arith

-- the archive format of a file that is not yanked, by its type and the end of its name: a wheel is
-- a zip archive, a source distribution is a tar-gzip or a zip archive, and nothing else has one
abbrev pub offered : PypiReleaseFile → Option ArtifactArchiveFormat
offered file =
    if not file.yanked
      && (equal file.package_type (ascii "sdist")
          && (ends_with file.filename (ascii ".tar.gz") || ends_with file.filename (ascii ".tgz")))
    then some tar_gzip
    else if not file.yanked
        && ((equal file.package_type (ascii "bdist_wheel")
              && ends_with file.filename (ascii ".whl"))
            || (equal file.package_type (ascii "sdist") && ends_with file.filename (ascii ".zip")))
    then some zip
    else none

-- What the files that are offered say of themselves, in their order.
unfoldable pub published : Bytes → Bytes → List PypiReleaseFile → List ArtifactDescriptor
published name version [] = []
published name version (file ∷ files) = elim (offered file) [
  | none ↦ published name version files
  | some format ↦
      record {
        registry = pypi;
        archive_format = format;
        package_name = name;
        package_version = version;
        filename = file.filename;
        download_url = file.url;
        sha256 = file.sha256;
        published_size = file.size;
      }
      ∷ published name version files
]

-- a wheel is no source distribution
one_type : (t : Bytes) → (equal t (ascii "bdist_wheel") && equal t (ascii "sdist")) ≡ false
unfolding ascii equal
one_type [] = refl
one_type (c ∷ t) = ground arith

format_cases :
    (yanked wheel whl sdist tar compressed : Bool)
    → (wheel && sdist) ≡ false
    → (if yanked
        then none
        else if wheel && whl
        then some zip
        else if not sdist
        then none
        else if tar
        then some tar_gzip
        else if compressed
        then some zip
        else none)
      ≡ (if not yanked && (sdist && tar)
          then some tar_gzip
          else if not yanked && ((wheel && whl) || (sdist && compressed))
          then some zip
          else none)
format_cases true wheel whl sdist tar compressed h = refl
format_cases false true whl true tar compressed h = cc
format_cases false true true false tar compressed h = refl
format_cases false true false false tar compressed h = refl
format_cases false false whl false tar compressed h = refl
format_cases false false whl true true compressed h = refl
format_cases false false whl true false true h = refl
format_cases false false whl true false false h = refl

supported-offered : (file : PypiReleaseFile) → supported file ≡ offered file
unfolding pypi_format
supported-offered file =
    format_cases file.yanked (equal file.package_type (ascii "bdist_wheel"))
      (ends_with file.filename (ascii ".whl")) (equal file.package_type (ascii "sdist"))
      (ends_with file.filename (ascii ".tar.gz") || ends_with file.filename (ascii ".tgz"))
      (ends_with file.filename (ascii ".zip")) (one_type file.package_type)

-- what the loop knows of `identities` and `descriptors`
record Known (limits : AcquisitionLimits) (found : Found) : Type 0 where
  listed : All (λ d. has_identity d.filename d.sha256 found.0 ≡ true) found.1
  distinct : IsDistinct found.1
  artifacts : All (IsArtifact limits) found.1

IsDistinct-concat :
    (ds : List ArtifactDescriptor) (d : ArtifactDescriptor)
    → IsDistinct ds
    → All (λ x. Differs x d) ds
    → IsDistinct (ds ++ d ∷ [])
IsDistinct-concat [] d u h = (tt, tt)
IsDistinct-concat (x ∷ ds) d (v, u) (p, h) =
    (All-concat (λ y. Differs x y) ds d v p, IsDistinct-concat ds d u h)

listed-Differs :
    (identities : List (Bytes × Bytes)) (d : ArtifactDescriptor) (ds : List ArtifactDescriptor)
    → has_identity d.filename d.sha256 identities ≡ false
    → All (λ x. has_identity x.filename x.sha256 identities ≡ true) ds
    → All (λ x. Differs x d) ds
listed-Differs identities d [] n h = tt
listed-Differs identities d (x ∷ ds) n (p, h) = (
  ground (arith, (equal_iff x.filename d.filename).0, (equal_iff x.sha256 d.sha256).0),
  listed-Differs identities d ds n h,
)

listed-cons :
    (f s : Bytes) (identities : List (Bytes × Bytes)) (ds : List ArtifactDescriptor)
    → All (λ x. has_identity x.filename x.sha256 identities ≡ true) ds
    → All (λ x. has_identity x.filename x.sha256 ((f, s) ∷ identities) ≡ true) ds
unfolding has_identity
listed-cons f s identities [] h = tt
listed-cons f s identities (x ∷ ds) (p, h) = (ground arith, listed-cons f s identities ds h)

add_file-Known :
    (limits : AcquisitionLimits) (name version : Bytes) (found : Found) (file : PypiReleaseFile)
    (format : ArtifactArchiveFormat)
    → Known limits found
    → Ensures
        (λ (r : Found). Known limits r × (r.1 ≡ found.1 ++ describe name version format file ∷ []))
        (add_file limits name version found file format)
unfolding add_file has_identity
add_file-Known limits name version (ids, ds) file format k =
    let d = describe name version format file in
    Ensures-then
      (validate_common-Ensures limits name version file.filename file.url file.sha256 file.size)
      λ v. Ensures-require (not (has_identity file.filename file.sha256 ids)) _ λ n. holds (
        record {
          listed =
              All-concat _ _ _ (listed-cons file.filename file.sha256 ids ds k.listed)
                (rw (equal_refl file.filename, equal_refl file.sha256) refl);
          distinct =
              IsDistinct-concat ds d k.distinct
                (listed-Differs ids d ds (not-true→false _ n) k.listed);
          artifacts = All-concat _ ds d k.artifacts (v d refl refl refl refl refl refl);
        },
        refl,
      )

-- what a file adds, by its format
abbrev added :
    Bytes → Bytes → PypiReleaseFile → Option ArtifactArchiveFormat → List ArtifactDescriptor
added name version file none = []
added name version file (some format) = describe name version format file ∷ []

by_format-Known :
    (limits : AcquisitionLimits) (name version : Bytes) (found : Found) (file : PypiReleaseFile)
    (o : Option ArtifactArchiveFormat)
    → Known limits found
    → Ensures
        (λ (r : Found). Known limits r × (r.1 ≡ found.1 ++ added name version file o))
        (elim o [ none ↦ ok found | some format ↦ add_file limits name version found file format ])
by_format-Known limits name version found file none k = holds (k, sym (append-nil found.1))
by_format-Known limits name version found file (some format) k =
    add_file-Known limits name version found file format k

published-added :
    (name version : Bytes) (file : PypiReleaseFile)
    → published name version (file ∷ []) ≡ added name version file (offered file)
unfolding published
published-added name version file =
    elim (offered file)
      as (λ o.
        (elim o [ none ↦ [] | some format ↦ describe name version format file ∷ [] ])
        ≡ added name version file o) [ none ↦ refl | some format ↦ refl ]

on_file-Known :
    (limits : AcquisitionLimits) (name version : Bytes) (found : Found) (file : PypiReleaseFile)
    → Known limits found
    → Ensures
        (λ (r : Found). Known limits r × (r.1 ≡ found.1 ++ published name version (file ∷ [])))
        (on_file limits name version found file)
unfolding on_file
on_file-Known limits name version found file k =
    Ensures-weaken (by_format-Known limits name version found file (supported file) k) λ r h. (
      h.0,
      h.1
          ∙ ap (λ o. found.1 ++ added name version file o) (supported-offered file)
          ∙ ap (λ ds. found.1 ++ ds) (sym (published-added name version file)),
    )

published-nil : (name version : Bytes) → published name version [] ≡ []
unfolding published
published-nil name version = refl

published-cons :
    (name version : Bytes) (file : PypiReleaseFile) (files : List PypiReleaseFile)
    → published name version (file ∷ files)
      ≡ published name version (file ∷ []) ++ published name version files
unfolding published
published-cons name version file files =
    elim (offered file)
      as (λ o.
        (elim o [
          | none ↦ published name version files
          | some format ↦ describe name version format file ∷ published name version files
        ])
        ≡ (elim o [ none ↦ [] | some format ↦ describe name version format file ∷ [] ])
          ++ published name version files) [ none ↦ refl | some format ↦ refl ]

each_file-Known :
    (limits : AcquisitionLimits) (name version : Bytes) (found : Found)
    (files : List PypiReleaseFile)
    → Known limits found
    → Ensures
        (λ (r : Found). Known limits r × (r.1 ≡ found.1 ++ published name version files))
        (each_file limits name version found files)
unfolding each_file
each_file-Known limits name version found [] k =
    holds (k, sym (rw (published-nil name version) (append-nil found.1)))
each_file-Known limits name version found (file ∷ files) k =
    Ensures-bind (on_file-Known limits name version found file k) λ next h.
      Ensures-weaken (each_file-Known limits name version next files h.0) λ r j. (
        j.0,
        rw (j.1, h.1, published-cons name version file files)
            (append_assoc found.1 (published name version (file ∷ []))
              (published name version files)),
      )

-- When `make_pypi_artifact_descriptors` succeeds it returns the descriptors of exactly the files
-- that are not yanked and are a wheel (`.whl`) or a source distribution (`.tar.gz`, `.tgz` or
-- `.zip`), the tar-gzip archives before the zip archives, and in each format strictly ascending by
-- file name and hash; there is at least one, and each has bounded visible names, a file name
-- without slashes, an accepted URL, a well-formed hash, and a size from 1 to the configured limit.
pub make_pypi_artifact_descriptors-Published :
    (limits : AcquisitionLimits) (name version : Bytes) (files : List PypiReleaseFile)
    → Ensures
        (λ ds.
          Perm ds (published name version files)
          × IsListed ds
          × All (IsArtifact limits) ds
          × (length files ≤ limits.maximum_release_files)
          × (null (published name version files) ≡ false))
        (make_pypi_artifact_descriptors limits name version files)
unfolding make_pypi_artifact_descriptors
make_pypi_artifact_descriptors-Published limits name version files =
    Ensures-require (leb (length files) limits.maximum_release_files) _ λ few.
      Ensures-bind
        (each_file-Known limits name version ([], []) files
          (record { listed = tt; distinct = tt; artifacts = tt }))
        λ found h. Ensures-require (not (null found.1)) _ λ some_left. holds (
          subst (Perm (sort_descriptors found.1)) h.1 (sort_descriptors-Perm found.1),
          IsAscending-IsListed _ (sort_descriptors-IsAscending found.1 h.0.distinct),
          All-sort_descriptors _ found.1 h.0.artifacts,
          leb→le _ _ few,
          subst (λ ds. null ds ≡ false) h.1 (not-true→false _ some_left),
        )
