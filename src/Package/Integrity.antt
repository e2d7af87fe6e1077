-- ===== src/Package/Integrity.antt =====
-- `sha256_hex`, `sha512_raw`, `verify_npm_integrity` and `verify_pypi_integrity` of src/analyze.cpp.
use mcp_observatory.Prelude.{
  Bytes, ltb, leb, ◌==◌, if◌then◌else◌, within, ascii, length, take, all, equal, Outcome, ok, err,
  ◌>>=◌, ◌>>◌, require, ℕ, ◌+◌, ◌-◌, ◌/◌, ◌%◌, Bool, ◌&&◌, ◌||◌, Option, none, some, [], ◌∷◌, map,
}
use mcp_observatory.Package.Base64.{base64_decode}

abbrev pub is_lower_hex : ℕ → Bool
is_lower_hex c = within b'0' b'9' c || within b'a' b'f' c

abbrev pub is_hex : ℕ → Bool
is_hex c = within b'0' b'9' c || within b'a' b'f' c || within b'A' b'F' c

-- the comparison's view of a published digit
abbrev pub lower_hex_digit : ℕ → ℕ
lower_hex_digit c = if within b'A' b'F' c then c - b'A' + b'a' else c

-- two digits for a byte
abbrev pub hex_of : ℕ → ℕ
hex_of n = if ltb n 10 then b'0' + n else b'a' + (n - 10)

unfoldable pub expected_hex : Bytes → Bytes
expected_hex [] = []
expected_hex (c ∷ s) = hex_of (c / 16) ∷ hex_of (c % 16) ∷ expected_hex s

abbrev pub push_algorithm : ℕ → Option (Bytes × Bytes) → Option (Bytes × Bytes)
push_algorithm c none = none
push_algorithm c (some (algo, encoded)) = some (c ∷ algo, encoded)

-- `published.substr(0, find('-'))` and what stands behind the dash
unfoldable pub split_dash : Bytes → Option (Bytes × Bytes)
split_dash [] = none
split_dash (c ∷ s) =
    let later = split_dash s in if c == b'-' then some ([], s) else push_algorithm c later

unfoldable pub same_digest : Bytes → Bytes → Outcome (Unit {0})
unfolding equal
same_digest decoded digest =
    require (length decoded == length digest && equal digest decoded) "npm integrity mismatch"

unfoldable pub same_hex : Bytes → Bytes → Outcome (Unit {0})
unfolding equal expected_hex
same_hex decoded digest = require (equal digest (expected_hex decoded)) "npm integrity mismatch"

-- The exit status and the output of `openssl dgst` on the bytes, or the failure to run it. The
-- status and the output that a message names are left out of it.
module _ (openssl_sha256 openssl_sha512 : Bytes → Outcome (ℕ × Bytes)) where
  unfoldable pub sha256_hex : Bytes → Outcome Bytes
  sha256_hex bytes = do
    (status, output) ← openssl_sha256 bytes
    require (status == 0) "OpenSSL SHA-256 failed with exit status"
    require (leb 64 (length output)) "OpenSSL SHA-256 returned truncated output"
    require (all is_lower_hex (take 64 output)) ""
    ok (take 64 output)

  unfoldable pub sha512_raw : Bytes → Outcome Bytes
  sha512_raw bytes = do
    (status, output) ← openssl_sha512 bytes
    require (status == 0) "OpenSSL SHA-512 failed with exit status"
    require (length output == 64) "OpenSSL SHA-512 returned an unexpected digest length"
    ok output

  unfoldable pub check_npm_digest : Bytes → Bytes → Bytes → Outcome (Unit {0})
  unfolding sha256_hex sha512_raw same_digest same_hex ascii equal
  check_npm_digest artifact_bytes algo decoded =
      if equal algo (ascii "sha512")
      then sha512_raw artifact_bytes >>= same_digest decoded
      else if equal algo (ascii "sha256")
      then sha256_hex artifact_bytes >>= same_hex decoded
      else err "unsupported npm integrity algorithm"

  unfoldable pub verify_npm_integrity : Bytes → Bytes → Outcome (Unit {0})
  unfolding split_dash base64_decode check_npm_digest
  verify_npm_integrity artifact_bytes published_integrity = elim (split_dash published_integrity) [
    | none ↦ err "invalid npm integrity format"
    | some p ↦ do decoded ← base64_decode p.1; check_npm_digest artifact_bytes p.0 decoded
  ]

  unfoldable pub verify_pypi_integrity : Bytes → Bytes → ℕ → Outcome (Unit {0})
  unfolding sha256_hex equal
  verify_pypi_integrity artifact_bytes published_sha256 published_size = do
    require (length artifact_bytes == published_size)
        "PyPI artifact size does not match release metadata"
    require (length published_sha256 == 64 && all is_hex published_sha256)
        "invalid PyPI SHA-256 digest"
    actual ← sha256_hex artifact_bytes
    require (equal actual (map lower_hex_digit published_sha256)) "PyPI SHA-256 integrity mismatch"
