-- ===== src/Package/Verified.antt =====
-- Which files the integrity checks accept.
use mcp_observatory.Prelude.{
  Bytes, ascii, length, all, Outcome, ok, ◌>>◌, require, ℕ, String, ◌≡◌, refl, ◌↔◌, Bool, true,
  false, ◌++◌, map, ◌==◌, ==→eq, equal, equal_iff, equal_refl, err, out_of_fuel, ◌>>=◌, sym, ap,
  subst, ◌&&◌, arith, leb, if◌then◌else◌, Bool-cases, le→leb, take, length-append,
  take-length-append, inl, inr, Option, none, some,
}
use mcp_observatory.Package.Integrity.{
  is_hex, lower_hex_digit, sha256_hex, sha512_raw, verify_npm_integrity, verify_pypi_integrity,
  split_dash, same_digest, check_npm_digest,
}
use mcp_observatory.Package.Hex.{
  hex_text, decode_hex, decode_hex-digits, decode_hex-other, length-hex_text, hex_text-digits,
}
use mcp_observatory.Package.RoundTrip.{base64_encode, AreBytes, base64_decode-base64_encode}

test-ok : (b : Bool) (e : String) → require b e ≡ ok tt → b ≡ true
test-ok true e h = refl
test-ok false e h = cc

test-true : (b : Bool) (e : String) → b ≡ true → require b e ≡ ok tt
test-true true e h = refl
test-true false e h = cc

ok-injective : (x y : Bytes) → ok x ≡ ok y → x ≡ y
ok-injective x y e = cc

same_digest_iff : (r : Outcome Bytes) (d : Bytes) → ((r >>= same_digest d) ≡ ok tt) ↔ (r ≡ ok d)
unfolding same_digest
same_digest_iff (ok x) d = (
  (λ h. ap ok ((equal_iff x d).0 (and-right _ _ (test-ok _ _ h)))),
  (λ h.
      let e = ok-injective x d h in
      test-true _ _ (subst (λ y. (length d == length y && equal y d) ≡ true) (sym e) (same d))),
)
  where
    and-right : (a b : Bool) → (a && b) ≡ true → b ≡ true
    and-right a b h = ground arith

    same : (s : Bytes) → (length s == length s && equal s s) ≡ true
    same s = ground (arith, equal_refl s)
same_digest_iff (err g) d = ((λ h. cc), λ h. cc)
same_digest_iff out_of_fuel d = ((λ h. cc), λ h. cc)

-- the bytes that a digest of 64 digits stands for
abbrev pub decode_digest : Bytes → Option Bytes
decode_digest s = if length s == 64 then decode_hex s else none

module _ (openssl_sha256 openssl_sha512 : Bytes → Outcome (ℕ × Bytes)) where
  -- what `sha256_hex` makes of the output of OpenSSL
  sha256_hex-hex_text :
      (bytes digest rest : Bytes)
      → openssl_sha256 bytes ≡ ok (0, hex_text digest ++ rest)
      → AreBytes digest
      → length digest ≡ 32
      → sha256_hex openssl_sha256 openssl_sha512 bytes ≡ ok (hex_text digest)
  unfolding sha256_hex
  sha256_hex-hex_text bytes digest rest r a l = rw (r, take_64, hex_text-digits digest a, long) refl
    where
      size : length (hex_text digest) ≡ 64
      size = omega (arith, length-hex_text digest)

      take_64 : take 64 (hex_text digest ++ rest) ≡ hex_text digest
      take_64 =
          subst (λ n. take n (hex_text digest ++ rest) ≡ hex_text digest) size
            (take-length-append (hex_text digest) rest)

      long : leb 64 (length (hex_text digest ++ rest)) ≡ true
      long = le→leb _ _ (omega (arith, size, length-append (hex_text digest) rest))

  -- the tests behind the one of the size
  digest_checked :
      (bytes published digest : Bytes)
      → sha256_hex openssl_sha256 openssl_sha512 bytes ≡ ok (hex_text digest)
      → AreBytes digest
      → length digest ≡ 32
      → (require (length published == 64 && all is_hex published) "invalid PyPI SHA-256 digest"
          >> (sha256_hex openssl_sha256 openssl_sha512 bytes >>= λ actual.
              require
                (equal actual (map lower_hex_digit published))
                "PyPI SHA-256 integrity mismatch"))
        ≡ (elim (decode_digest published) [
          | none ↦ err "invalid PyPI SHA-256 digest"
          | some d ↦ if equal d digest then ok tt else err "PyPI SHA-256 integrity mismatch"
        ])
  digest_checked bytes published digest r a l = elim (Bool-cases (length published == 64)) [
    | inr k ↦ rw k refl
    | inl k ↦ elim (Bool-cases (all is_hex published)) [
      | inr n ↦ rw (k, n, decode_hex-other published n) refl
      | inl n ↦
          let e = ==→eq _ _ k in
          let (d, f, same) = decode_hex-digits published digest n (omega (arith, e)) a in
          rw (k, n, r, f, same) (require-if (equal d digest))
    ]
  ]
    where
      require-if :
          (b : Bool)
          → require b "PyPI SHA-256 integrity mismatch"
            ≡ (if b then ok tt else err "PyPI SHA-256 integrity mismatch")
      require-if true = refl
      require-if false = refl

  -- If OpenSSL prints a digest of 32 bytes in hexadecimal for a file of a PyPI release, then the
  -- file is accepted exactly if it has the published size and the published digest is one of 64
  -- hexadecimal digits, in upper or lower case, that stand for these bytes; otherwise the error
  -- says which of the three it is, the size first.
  pub verify_pypi_integrity_exact :
      (artifact_bytes published_sha256 digest rest : Bytes) (published_size : ℕ)
      → openssl_sha256 artifact_bytes ≡ ok (0, hex_text digest ++ rest)
      → AreBytes digest
      → length digest ≡ 32
      → verify_pypi_integrity openssl_sha256 openssl_sha512 artifact_bytes published_sha256
          published_size
        ≡ (if length artifact_bytes == published_size
            then (elim (decode_digest published_sha256) [
              | none ↦ err "invalid PyPI SHA-256 digest"
              | some d ↦ if equal d digest then ok tt else err "PyPI SHA-256 integrity mismatch"
            ])
            else err "PyPI artifact size does not match release metadata")
  unfolding verify_pypi_integrity
  verify_pypi_integrity_exact artifact_bytes published_sha256 digest rest published_size r a l =
      elim (Bool-cases (length artifact_bytes == published_size)) [
        | inr k ↦ rw k refl
        | inl k ↦ rw k (
            digest_checked artifact_bytes published_sha256 digest
              (sha256_hex-hex_text artifact_bytes digest rest r a l) a l)
      ]

  -- A file of an npm package whose integrity text is `sha512-` and the encoding of some bytes is
  -- accepted exactly if these are what OpenSSL gives for the file.
  pub verify_npm_integrity-sha512 :
      (artifact_bytes digest : Bytes)
      → AreBytes digest
      → (verify_npm_integrity openssl_sha256 openssl_sha512 artifact_bytes
            (ascii "sha512-" ++ base64_encode digest)
          ≡ ok tt)
        ↔ (sha512_raw openssl_sha256 openssl_sha512 artifact_bytes ≡ ok digest)
  unfolding verify_npm_integrity check_npm_digest ascii equal split_dash
  verify_npm_integrity-sha512 artifact_bytes digest a =
      rw (base64_decode-base64_encode digest a)
        (same_digest_iff (sha512_raw openssl_sha256 openssl_sha512 artifact_bytes) digest)
