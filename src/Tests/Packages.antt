-- ===== src/Tests/Packages.antt =====
-- An archive with one member, a digest in base64, and versions.
use mcp_observatory.Prelude.{
  Bytes, ascii, null, equal, has_byte, until_byte, ok, Ensures, ℕ, zero, suc, ◌≡◌, refl, ◌↔◌, true,
  ◌||◌, [], ◌∷◌, ◌++◌, arith, All, false, ◌&&◌, length, ◌-◌, Outcome, ◌==◌, if◌then◌else◌, err,
  none, some,
}
use mcp_observatory.Scan.{decimal}
use mcp_observatory.Archive.{
  TarMember, default_archive_limits, parse_ustar, tar_loop, tar_entry, member_path, member_size,
  entry_path, parse_octal, octal_loop, forward_slashes, without_leading_slashes,
  normalize_archive_path, has_dotdot_segment, segments, is_absolute, link_escapes_root, check_links,
  directory, resolved_link,
}
use mcp_observatory.Archive.Links.{points_out, check_links_safe}
use mcp_observatory.Archive.Safety.{IsArchive, IsBelowRoot, parse_ustar-IsArchive}
use mcp_observatory.Archive.Segments.{link_escapes_root_exact}
use mcp_observatory.Archive.Sizes.{octal_from, parse_octal_exact}
use mcp_observatory.Package.Base64.{base64_decode}
use mcp_observatory.Package.RoundTrip.{base64_encode, base64_decode-base64_encode, AreBytes}
use mcp_observatory.Package.Versions.{pypi_versions_equivalent}
use mcp_observatory.Package.Integrity.{
  verify_pypi_integrity, verify_npm_integrity, sha256_hex, sha512_raw,
}
use mcp_observatory.Package.Verified.{
  decode_digest, verify_pypi_integrity_exact, verify_npm_integrity-sha512,
}

abbrev zeros : ℕ → Bytes
zeros zero = []
zeros (suc n) = 0 ∷ zeros n

-- a header with a name of nine bytes, a size in octal, and a type with its link target
header : Bytes → Bytes → Bytes → Bytes
unfolding ascii
header name size link =
    name
    ++ (zeros 91
        ++ (ascii "0000644"
            ++ (zeros 17 ++ (size ++ (zeros 21 ++ (link ++ zeros (356 - length link)))))))

-- `package/a`, a file of three bytes, and a link to it
abbrev archive : Bytes
unfolding ascii header
archive =
    header (ascii "package/a") (ascii "00000000003") (ascii "0")
    ++ (ascii "abc" ++ (zeros 509 ++ header (ascii "package/b") (ascii "00000000000") (ascii "2a")))

abbrev member : TarMember
unfolding ascii
member = record {
  path = ascii "package/a";
  typeflag = b'0';
  size = 3;
  linkname = [];
  content = ascii "abc";
  mode = 420;
}

abbrev link : TarMember
unfolding ascii
link = record {
  path = ascii "package/b";
  typeflag = b'2';
  size = 0;
  linkname = ascii "a";
  content = [];
  mode = 420;
}

archive_read : parse_ustar default_archive_limits archive ≡ ok (member ∷ link ∷ [])
unfolding header archive member link parse_ustar tar_loop tar_entry member_path member_size
    entry_path parse_octal octal_loop forward_slashes without_leading_slashes normalize_archive_path
    has_dotdot_segment segments is_absolute ascii until_byte equal
archive_read = refl

parse_ustar-IsArchive_example :
    Ensures (IsArchive default_archive_limits) (parse_ustar default_archive_limits archive)
parse_ustar-IsArchive_example = parse_ustar-IsArchive default_archive_limits archive

abbrev below_root : Bytes
unfolding ascii
below_root = ascii "package/bin/a"

below_root-IsBelowRoot : IsBelowRoot below_root
unfolding segments has_byte equal below_root ascii
below_root-IsBelowRoot = (refl, refl, refl, (refl, (refl, (refl, tt))))

abbrev target : Bytes
unfolding ascii
target = ascii "../a"

link_escapes_root_exact_example :
    link_escapes_root below_root target
    ≡ (null target || (is_absolute target || has_dotdot_segment target))
unfolding has_byte target ascii
link_escapes_root_exact_example =
    link_escapes_root_exact below_root target below_root-IsBelowRoot refl

parse_octal_exact_example :
    parse_octal (b' ' ∷ b'1' ∷ b'7' ∷ 0 ∷ []) ≡ (true, octal_from 0 (b'1' ∷ b'7' ∷ []))
parse_octal_exact_example =
    parse_octal_exact (b' ' ∷ []) b'1' (b'7' ∷ []) (0 ∷ []) refl refl (omega arith) refl

base64_decode-base64_encode_example :
    base64_decode (base64_encode (77 ∷ 97 ∷ 110 ∷ 255 ∷ [])) ≡ ok (77 ∷ 97 ∷ 110 ∷ 255 ∷ [])
base64_decode-base64_encode_example =
    base64_decode-base64_encode (77 ∷ 97 ∷ 110 ∷ 255 ∷ [])
      (omega arith, (omega arith, (omega arith, (omega arith, tt))))

abbrev short_version : Bytes
unfolding ascii
short_version = ascii "v1.0rc1"

abbrev long_version : Bytes
unfolding ascii
long_version = ascii "1.0.0-RC1"

versions_compared : pypi_versions_equivalent short_version long_version ≡ ok true
unfolding pypi_versions_equivalent ascii decimal short_version long_version
versions_compared = refl

archive_links : check_links (member ∷ link ∷ []) ≡ ok tt
unfolding check_links member link ascii is_absolute has_dotdot_segment segments equal resolved_link
    directory normalize_archive_path has_byte forward_slashes without_leading_slashes
    link_escapes_root
archive_links = refl

check_links_safe_example :
    All
      (λ m. ((m.typeflag == b'1' || m.typeflag == b'2') && points_out m.path m.linkname) ≡ false)
      (member ∷ link ∷ [])
check_links_safe_example =
    check_links_safe default_archive_limits archive (member ∷ link ∷ []) archive_read archive_links

-- what OpenSSL prints for a file whose digest is of one digit
abbrev ones : ℕ → Bytes
ones zero = []
ones (suc n) = b'1' ∷ ones n

abbrev openssl_sha256 : Bytes → Outcome (ℕ × Bytes)
openssl_sha256 bytes = ok (0, ones 64 ++ (b' ' ∷ b'*' ∷ b'f' ∷ []))

abbrev openssl_sha512 : Bytes → Outcome (ℕ × Bytes)
openssl_sha512 bytes = ok (0, ones 64)

abbrev repeated : ℕ → ℕ → Bytes
repeated zero b = []
repeated (suc n) b = b ∷ repeated n b

repeated-AreBytes : (n : ℕ) → AreBytes (repeated n 17)
repeated-AreBytes zero = tt
repeated-AreBytes (suc n) = (omega arith, repeated-AreBytes n)

verify_pypi_integrity_exact_example :
    verify_pypi_integrity openssl_sha256 openssl_sha512 (7 ∷ []) (ones 64) 1 ≡ (
      if length {A = ℕ} (7 ∷ []) == 1
      then (elim (decode_digest (ones 64)) [
        | none ↦ err "invalid PyPI SHA-256 digest"
        | some d ↦ if equal d (repeated 32 17) then ok tt else err "PyPI SHA-256 integrity mismatch"
      ])
      else err "PyPI artifact size does not match release metadata")
verify_pypi_integrity_exact_example =
    verify_pypi_integrity_exact openssl_sha256 openssl_sha512 (7 ∷ []) (ones 64) (repeated 32 17)
      (b' ' ∷ b'*' ∷ b'f' ∷ []) 1 refl (repeated-AreBytes 32) refl

pypi_file_accepted :
    verify_pypi_integrity openssl_sha256 openssl_sha512 (7 ∷ []) (ones 64) 1 ≡ ok tt
unfolding verify_pypi_integrity sha256_hex equal
pypi_file_accepted = refl

abbrev npm_digest : Bytes
npm_digest = 49 ∷ 49 ∷ []

verify_npm_integrity-sha512_example :
    (verify_npm_integrity openssl_sha256 openssl_sha512
        (7 ∷ [])
        (ascii "sha512-" ++ base64_encode npm_digest)
      ≡ ok tt)
    ↔ (sha512_raw openssl_sha256 openssl_sha512 (7 ∷ []) ≡ ok npm_digest)
verify_npm_integrity-sha512_example =
    verify_npm_integrity-sha512 openssl_sha256 openssl_sha512 (7 ∷ []) npm_digest
      (omega arith, (omega arith, tt))
