-- ===== src/Tests/Versions.antt =====
-- Two texts that spell one version.
use mcp_observatory.Prelude.{ascii, ok, ◌≡◌, refl, true, none, some, [], ◌∷◌, arith}
use mcp_observatory.Scan.{decimal}
use mcp_observatory.Registry.Address.{lower_ascii}
use mcp_observatory.Package.Versions.{pypi_versions_equivalent}
use mcp_observatory.Package.Spelling.{
  Spelling, IsSpelling, spelled, alpha, a_letter, alpha_word, IsLabel,
}
use mcp_observatory.Package.Equivalence.{pypi_versions_equivalent-spelled}

-- `1.0a7`
abbrev short_spelling : Spelling
unfolding ascii
short_spelling = record {
  prefix = none;
  first = (b'1', []);
  more = (b'0', []) ∷ [];
  prerelease = some (record {
    phase = alpha;
    ahead = none;
    label = ascii "a";
    between = none;
    number = b'7' ∷ [];
  });
}

-- `v1-ALPHA_07`
abbrev long_spelling : Spelling
unfolding ascii
long_spelling = record {
  prefix = some b'v';
  first = (b'1', []);
  more = [];
  prerelease = some (record {
    phase = alpha;
    ahead = some b'-';
    label = ascii "ALPHA";
    between = some b'_';
    number = b'0' ∷ b'7' ∷ [];
  });
}

short-IsLabel : IsLabel alpha (lower_ascii (ascii "a"))
unfolding ascii lower_ascii
short-IsLabel = a_letter

long-IsLabel : IsLabel alpha (lower_ascii (ascii "ALPHA"))
unfolding ascii lower_ascii
long-IsLabel = alpha_word

short_spelling-IsSpelling : IsSpelling short_spelling
unfolding ascii decimal
short_spelling-IsSpelling = record {
  prefix = tt;
  first = (refl, omega arith);
  more = ((refl, omega arith), tt);
  prerelease = (tt, short-IsLabel, tt, (refl, omega arith));
  bounded = omega arith;
}

long_spelling-IsSpelling : IsSpelling long_spelling
unfolding ascii decimal
long_spelling-IsSpelling = record {
  prefix = refl;
  first = (refl, omega arith);
  more = tt;
  prerelease = (refl, long-IsLabel, refl, (refl, omega arith));
  bounded = omega arith;
}

long_spelled : spelled long_spelling ≡ ascii "v1-ALPHA_07"
unfolding ascii
long_spelled = refl

pypi_versions_equivalent-spelled_example :
    pypi_versions_equivalent (spelled short_spelling) (spelled long_spelling) ≡ ok true
unfolding decimal ascii
pypi_versions_equivalent-spelled_example =
    pypi_versions_equivalent-spelled short_spelling long_spelling short_spelling-IsSpelling
      long_spelling-IsSpelling
