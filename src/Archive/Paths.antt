-- ===== src/Archive/Paths.antt =====
-- The paths of archive members, from `has_dotdot_segment` to `link_escapes_root` of
-- src/analyze.cpp.
use mcp_observatory.Prelude.{
  Bytes, ℕ, ◌==◌, if◌then◌else◌, within, null, equal, has_byte, Bool, true, false, ◌&&◌, ◌||◌, List,
  [], ◌∷◌, ◌++◌,
}

abbrev is_alpha : ℕ → Bool
is_alpha c = within b'a' b'z' c || within b'A' b'Z' c

-- a byte in front of the first segment
abbrev pub first_segment : ℕ → List Bytes → List Bytes
first_segment c [] = (c ∷ []) ∷ []
first_segment c (x ∷ xs) = (c ∷ x) ∷ xs

abbrev pub is_dotdot : Bytes → Bool
is_dotdot part = equal part (b'.' ∷ b'.' ∷ [])

abbrev pub any {ℓ} : {A : Type ℓ} → (A → Bool) → List A → Bool
any test [] = false
any test (x ∷ xs) = test x || any test xs

-- the parts between the slashes
unfoldable pub segments : Bytes → List Bytes
segments [] = [] ∷ []
segments (c ∷ s) = let rest = segments s in if c == b'/' then [] ∷ rest else first_segment c rest

unfoldable pub has_dotdot_segment : Bytes → Bool
unfolding segments
has_dotdot_segment path = any is_dotdot (segments path)

-- `\` as `/`
unfoldable pub forward_slashes : Bytes → Bytes
forward_slashes [] = []
forward_slashes (c ∷ s) = (if c == b'\\' then b'/' else c) ∷ forward_slashes s

unfoldable pub without_leading_slashes : Bytes → Bytes
without_leading_slashes [] = []
without_leading_slashes (c ∷ s) =
    let rest = without_leading_slashes s in if c == b'/' then rest else c ∷ s

unfoldable pub normalize_archive_path : Bytes → Bytes
unfolding forward_slashes without_leading_slashes
normalize_archive_path path = without_leading_slashes (forward_slashes path)

-- a slash in front, or a drive letter
unfoldable pub is_absolute : Bytes → Bool
is_absolute [] = false
is_absolute (c ∷ []) = c == b'/'
is_absolute (c ∷ d ∷ s) = c == b'/' || (is_alpha c && d == b':')

-- what stands before the last slash; with no slash, nothing
unfoldable pub directory : Bytes → Bytes
directory [] = []
directory (c ∷ s) = let rest = directory s in if has_byte b'/' s then c ∷ rest else []

unfoldable pub resolved_link : Bytes → Bytes → Bytes
unfolding directory normalize_archive_path
resolved_link path linkname =
    let base = directory (normalize_archive_path path) in
    if null base then linkname else base ++ (b'/' ∷ linkname)

unfoldable pub link_escapes_root : Bytes → Bytes → Bool
unfolding has_dotdot_segment is_absolute resolved_link normalize_archive_path
link_escapes_root path linkname =
    let resolved = normalize_archive_path (resolved_link path linkname) in
    if null linkname
    then true
    else if is_absolute linkname || has_dotdot_segment linkname
    then true
    else has_dotdot_segment resolved || null resolved
