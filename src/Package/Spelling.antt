-- ===== src/Package/Spelling.antt =====
-- Texts that spell a version, and the version that they spell, apart from the parser of
-- src/analyze.cpp.
use mcp_observatory.Prelude.{
  Bytes, length, ◌==◌, ascii, all, ℕ, ◌^◌, ◌≤◌, ◌<◌, ◌≡◌, true, ◌||◌, Option, none, some, List, [],
  ◌∷◌, ◌++◌,
}
use mcp_observatory.Scan.{is_digit, decimal}
use mcp_observatory.Registry.Address.{lower_ascii}
use mcp_observatory.Package.Versions.{without_zeros, PypiVersionIdentity}

-- the phases before a release
pub data Phase : Type 0 where
  alpha beta candidate : Phase

-- the words for a phase
pub data IsLabel : Phase → Bytes → Type 0 where
  a_letter : IsLabel alpha (ascii "a")
  alpha_word : IsLabel alpha (ascii "alpha")
  b_letter : IsLabel beta (ascii "b")
  beta_word : IsLabel beta (ascii "beta")
  rc_word : IsLabel candidate (ascii "rc")
  c_letter : IsLabel candidate (ascii "c")
  pre_word : IsLabel candidate (ascii "pre")
  preview_word : IsLabel candidate (ascii "preview")

-- A pre-release: a phase, the word for it, a number, which may be left out, and a byte in front of
-- each of the two, which may be left out as well.
pub record Prerelease : Type 0 where
  pub phase : Phase
  pub ahead : Option ℕ
  pub label : Bytes
  pub between : Option ℕ
  pub number : Bytes

-- A version: a `v`, which may be left out, the digits of its components, the first of them apart,
-- and perhaps a pre-release.
pub record Spelling : Type 0 where
  pub prefix : Option ℕ
  pub first : ℕ × Bytes
  pub more : List (ℕ × Bytes)
  pub prerelease : Option Prerelease

-- a byte that may be left out, in front of a text
abbrev pub optionally : Option ℕ → Bytes → Bytes
optionally none s = s
optionally (some c) s = c ∷ s

-- components, with dots between them, in front of a text
abbrev pub release_text : ℕ × Bytes → List (ℕ × Bytes) → Bytes → Bytes
release_text (d, ds) [] rest = d ∷ (ds ++ rest)
release_text (d, ds) (e ∷ es) rest = d ∷ (ds ++ b'.' ∷ release_text e es rest)

abbrev pub prerelease_text : Option Prerelease → Bytes
prerelease_text none = []
prerelease_text (some p) = optionally p.ahead (p.label ++ optionally p.between p.number)

abbrev pub spelled : Spelling → Bytes
spelled s = optionally s.prefix (release_text s.first s.more (prerelease_text s.prerelease))

-- decimal digits of a number of 64 bits
abbrev pub IsNumber : Bytes → Type 0
IsNumber ds = (all is_digit ds ≡ true) × (decimal 0 ds < 2 ^ 64)

abbrev pub IsComponent : ℕ × Bytes → Type 0
IsComponent p = IsNumber (p.0 ∷ p.1)

abbrev pub AreComponents : List (ℕ × Bytes) → Type 0
AreComponents [] = Unit
AreComponents (p ∷ ps) = IsComponent p × AreComponents ps

-- a byte that is a `.`, a `-` or a `_`, if there is one
abbrev pub IsSeparator : Option ℕ → Type 0
IsSeparator none = Unit
IsSeparator (some c) = (c == b'.' || c == b'-' || c == b'_') ≡ true

abbrev pub IsPrefix : Option ℕ → Type 0
IsPrefix none = Unit
IsPrefix (some c) = (c == b'v' || c == b'V') ≡ true

abbrev pub IsPrerelease : Option Prerelease → Type 0
IsPrerelease none = Unit
IsPrerelease (some p) =
    IsSeparator p.ahead
    × IsLabel p.phase (lower_ascii p.label)
    × IsSeparator p.between
    × IsNumber p.number

pub record IsSpelling (s : Spelling) : Type 0 where
  pub prefix : IsPrefix s.prefix
  pub first : IsComponent s.first
  pub more : AreComponents s.more
  pub prerelease : IsPrerelease s.prerelease
  pub bounded : length (spelled s) ≤ 512

-- the numbers of the components
abbrev pub numbers : ℕ × Bytes → List (ℕ × Bytes) → List ℕ
numbers (d, ds) [] = decimal 0 (d ∷ ds) ∷ []
numbers (d, ds) (e ∷ es) = decimal 0 (d ∷ ds) ∷ numbers e es

abbrev pub rank : Phase → ℕ
rank alpha = 0
rank beta = 1
rank candidate = 2

abbrev pub prerelease_meaning : Option Prerelease → Option (ℕ × ℕ)
prerelease_meaning none = none
prerelease_meaning (some p) = some (rank p.phase, decimal 0 p.number)

unfoldable pub meaning : Spelling → PypiVersionIdentity
meaning s = record {
  release = without_zeros (numbers s.first s.more);
  prerelease = prerelease_meaning s.prerelease;
}
