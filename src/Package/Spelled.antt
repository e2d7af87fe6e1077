-- ===== src/Package/Spelled.antt =====
-- `parse_pypi_version_identity` on a spelled version.
use mcp_observatory.Prelude.{
  Bytes, length, ◌==◌, null, ok, ℕ, suc, ◌≤◌, ◌<◌, ◌≡◌, refl, true, false, ◌||◌, Option, none, some,
  List, [], ◌∷◌, arith, ltb, length-append, ap,
}
use mcp_observatory.Scan.{is_digit}
use mcp_observatory.Package.Versions.{without_v, parse_pypi_version_identity, with_prerelease}
use mcp_observatory.Package.Spelling.{
  Spelling, optionally, release_text, prerelease_text, spelled, IsComponent, IsPrefix, IsPrerelease,
  IsSpelling, numbers, meaning,
}
use mcp_observatory.Package.Components.{first_digit, release_loop-text}
use mcp_observatory.Package.Labels.{parse_prerelease-text, prerelease-Closes}

length-release_text :
    (p : ℕ × Bytes) (ps : List (ℕ × Bytes)) (rest : Bytes)
    → length ps ≤ length (release_text p ps rest)
length-release_text p [] rest = omega arith
length-release_text (d, ds) (q ∷ ps) rest =
    omega (arith, length-append ds (b'.' ∷ release_text q ps rest), length-release_text q ps rest)

length-optionally : (o : Option ℕ) (s : Bytes) → length s ≤ length (optionally o s)
length-optionally none s = omega arith
length-optionally (some x) s = omega arith

without_v-release_text :
    (o : Option ℕ) (p : ℕ × Bytes) (ps : List (ℕ × Bytes)) (rest : Bytes)
    → IsPrefix o
    → IsComponent p
    → without_v (optionally o (release_text p ps rest)) ≡ release_text p ps rest
without_v-release_text (some x) p ps rest h k = rw h refl
without_v-release_text none p [] rest h k = rw (no_v p.0 (first_digit p k)) refl
  where
    no_v : (d : ℕ) → is_digit d ≡ true → (d == b'v' || d == b'V') ≡ false
    no_v d e = ground arith
without_v-release_text none p (q ∷ ps) rest h k = rw (no_v p.0 (first_digit p k)) refl
  where
    no_v : (d : ℕ) → is_digit d ≡ true → (d == b'v' || d == b'V') ≡ false
    no_v d e = ground arith

nonempty :
    (o : Option ℕ) (p : ℕ × Bytes) (ps : List (ℕ × Bytes)) (rest : Bytes)
    → null (optionally o (release_text p ps rest)) ≡ false
nonempty (some x) p ps rest = refl
nonempty none p [] rest = refl
nonempty none p (q ∷ ps) rest = refl

with_prerelease-text :
    (s : Spelling)
    → IsPrerelease s.prerelease
    → with_prerelease (some (numbers s.first s.more, prerelease_text s.prerelease))
      ≡ some (meaning s)
unfolding meaning
with_prerelease-text s h = rw (parse_prerelease-text s.prerelease h, with_prerelease) refl

-- what the parser makes of a spelled version
pub parse_pypi_version_identity-spelled :
    (s : Spelling) → IsSpelling s → parse_pypi_version_identity (spelled s) ≡ ok (some (meaning s))
unfolding parse_pypi_version_identity
parse_pypi_version_identity-spelled s h =
    let rest = prerelease_text s.prerelease in
    rw
      (
        nonempty s.prefix s.first s.more rest,
        le→not_ltb (length (spelled s)) h.bounded,
        without_v-release_text s.prefix s.first s.more rest h.prefix h.first,
        release_loop-text (suc (length (spelled s))) s.first s.more rest (enough s) h.first h.more
            (prerelease-Closes s.prerelease h.prerelease),
      )
      (ap ok (with_prerelease-text s h.prerelease))
  where
    le→not_ltb : (n : ℕ) → n ≤ 512 → ltb 512 n ≡ false
    le→not_ltb n l = ground arith

    enough : (s : Spelling) → length s.more < suc (length (spelled s))
    enough s = omega (
      arith,
      length-release_text s.first s.more (prerelease_text s.prerelease),
      length-optionally s.prefix (release_text s.first s.more (prerelease_text s.prerelease)),
    )
