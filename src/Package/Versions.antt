-- ===== src/Package/Versions.antt =====
-- `parse_pypi_version_identity` and `pypi_versions_equivalent` of src/analyze.cpp.
use mcp_observatory.Prelude.{
  Bytes, ltb, ◌==◌, if◌then◌else◌, within, ascii, length, null, equal, Outcome, ok, out_of_fuel,
  ◌>>=◌, ℕ, zero, suc, ◌^◌, Bool, ◌&&◌, ◌||◌, Option, none, some, List, [], ◌∷◌, true, false,
}
use mcp_observatory.Scan.{is_digit, span_digits, decimal}
use mcp_observatory.Registry.Address.{lower_ascii}

-- the kind of a pre-release (0 for alpha, 1 for beta, 2 for a candidate), and its number
pub record PypiVersionIdentity : Type 0 where
  pub release : List ℕ
  pub prerelease : Option (ℕ × ℕ)

abbrev pub is_alpha : ℕ → Bool
is_alpha c = within b'a' b'z' c || within b'A' b'Z' c

unfoldable pub number_of : Bytes × Bytes → Option (ℕ × Bytes)
number_of ([], rest) = none
number_of (d ∷ ds, rest) =
    if ltb (decimal 0 (d ∷ ds)) (2 ^ 64) then some (decimal 0 (d ∷ ds), rest) else none

-- `std::from_chars` into an `unsigned long long`, on digits, of which there is at least one
unfoldable pub parse_pypi_version_number : Bytes → Option (ℕ × Bytes)
unfolding span_digits number_of
parse_pypi_version_number s = number_of (span_digits s)

unfoldable pub pypi_version_separator : ℕ → Bool
pypi_version_separator c = c == b'.' || c == b'-' || c == b'_'

abbrev pub without_v : Bytes → Bytes
without_v [] = []
without_v (c ∷ s) = if c == b'v' || c == b'V' then s else c ∷ s

-- what stands behind a dot that a digit follows
abbrev pub next_component : Bytes → Option Bytes
next_component (c ∷ d ∷ s) = if c == b'.' && is_digit d then some (d ∷ s) else none
next_component _ = none

abbrev pub with_component : ℕ → Option (List ℕ × Bytes) → Option (List ℕ × Bytes)
with_component component none = none
with_component component (some (components, rest)) = some (component ∷ components, rest)

-- behind a component: the end of the release, or the next component
unfoldable pub after_component :
    (Bytes → Outcome (Option (List ℕ × Bytes)))
    → ℕ × Bytes
    → Option Bytes
    → Outcome (Option (List ℕ × Bytes))
after_component more (n, rest) none = ok (some (n ∷ [], rest))
after_component more (n, rest) (some t) = do later ← more t; ok (with_component n later)

unfoldable pub on_component :
    (Bytes → Outcome (Option (List ℕ × Bytes)))
    → Option (ℕ × Bytes)
    → Outcome (Option (List ℕ × Bytes))
unfolding after_component
on_component more none = ok none
on_component more (some p) = after_component more p (next_component p.1)

-- the loop over the components of a release; each round reads a digit
unfoldable pub release_loop : ℕ → Bytes → Outcome (Option (List ℕ × Bytes))
unfolding parse_pypi_version_number on_component
release_loop zero s = out_of_fuel
release_loop (suc f) s = on_component (λ t. release_loop f t) (parse_pypi_version_number s)

abbrev pub drop_zeros : List ℕ → List ℕ
drop_zeros [] = []
drop_zeros (x ∷ xs) = let rest = drop_zeros xs in if null rest && x == 0 then [] else x ∷ rest

-- without the zeros at the end, but not the first component
unfoldable pub without_zeros : List ℕ → List ℕ
without_zeros [] = []
without_zeros (x ∷ xs) = x ∷ drop_zeros xs

unfoldable pub span_alpha : Bytes → Bytes × Bytes
span_alpha [] = ([], [])
span_alpha (c ∷ s) =
    let (label, rest) = span_alpha s in if is_alpha c then (c ∷ label, rest) else ([], c ∷ s)

unfoldable pub prerelease_kind : Bytes → Option ℕ
unfolding ascii equal
prerelease_kind label =
    if equal label (ascii "a") || equal label (ascii "alpha")
    then some 0
    else if equal label (ascii "b") || equal label (ascii "beta")
    then some 1
    else if equal label (ascii "rc")
        || equal label (ascii "c")
        || equal label (ascii "pre")
        || equal label (ascii "preview")
    then some 2
    else none

abbrev pub without_separator : Bytes → Bytes
without_separator [] = []
without_separator (c ∷ s) = if pypi_version_separator c then s else c ∷ s

-- the number of a pre-release, which may be left out, at the end of the text
unfoldable pub prerelease_number : Bytes → Option ℕ
unfolding parse_pypi_version_number
prerelease_number [] = some 0
prerelease_number (c ∷ s) = elim (parse_pypi_version_number (c ∷ s)) [
  | none ↦ none
  | some p ↦ if null p.1 then some p.0 else none
]

-- behind the release: a pre-release, if there is more text
unfoldable pub parse_prerelease : Bytes → Option (Option (ℕ × ℕ))
unfolding span_alpha prerelease_kind prerelease_number lower_ascii pypi_version_separator
parse_prerelease [] = some none
parse_prerelease (c ∷ s) =
    let (label, rest) = span_alpha (without_separator (c ∷ s)) in
    elim (prerelease_kind (lower_ascii label)) [
      | none ↦ none
      | some kind ↦ elim (prerelease_number (without_separator rest)) [
        | none ↦ none
        | some number ↦ some (some (kind, number))
      ]
    ]

-- the identity of a release and what stands behind it
abbrev pub with_prerelease : Option (List ℕ × Bytes) → Option PypiVersionIdentity
with_prerelease none = none
with_prerelease (some (components, rest)) = elim (parse_prerelease rest) [
  | none ↦ none
  | some p ↦ some record { release = without_zeros components; prerelease = p }
]

-- `none` is the result `false`.
unfoldable pub parse_pypi_version_identity : Bytes → Outcome (Option PypiVersionIdentity)
unfolding release_loop parse_prerelease without_zeros
parse_pypi_version_identity value =
    let release = release_loop (suc (length value)) (without_v value) in
    if null value || ltb 512 (length value)
    then ok none
    else do components ← release; ok (with_prerelease components)

-- the comparison of two optional pairs
abbrev pub same_prerelease : Option (ℕ × ℕ) → Option (ℕ × ℕ) → Bool
same_prerelease none none = true
same_prerelease (some (k, m)) (some (l, n)) = k == l && m == n
same_prerelease _ _ = false

unfoldable pub same_identity : PypiVersionIdentity → PypiVersionIdentity → Bool
unfolding equal
same_identity left right =
    equal left.release right.release && same_prerelease left.prerelease right.prerelease

-- both texts are versions, and these are the same
abbrev pub both_same : Option PypiVersionIdentity → Option PypiVersionIdentity → Bool
both_same (some left) (some right) = same_identity left right
both_same _ _ = false

unfoldable pub pypi_versions_equivalent : Bytes → Bytes → Outcome Bool
unfolding parse_pypi_version_identity same_identity
pypi_versions_equivalent left right = if equal left right then ok true else do
  left_identity ← parse_pypi_version_identity left
  right_identity ← parse_pypi_version_identity right
  ok (both_same left_identity right_identity)
