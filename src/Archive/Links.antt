-- ===== src/Archive/Links.antt =====
-- The links of an accepted archive, and where a reader who follows them goes.
use mcp_observatory.Prelude.{
  Bytes, null, All, ok, Ensures-ok, ◌≡◌, Bool, false, ◌&&◌, ◌||◌, List, [], ◌∷◌, if◌then◌else◌,
  Outcome, err, String, refl, true, ◌==◌, within, Bool-cases, equal, front, ℕ, ◌+◌, ◌-◌, sym, ap,
  ◌∙◌, inl, inr, ◌++◌, append_assoc, append-nil, arith,
}
use mcp_observatory.Archive.Model.{TarMember, ArchiveLimits}
use mcp_observatory.Archive.Paths.{
  has_dotdot_segment, is_absolute, segments, first_segment, is_dotdot, any, link_escapes_root,
}
use mcp_observatory.Archive.Parts.{null-segments}
use mcp_observatory.Archive.Safety.{IsMember, IsBelowRoot, parse_ustar-IsArchive}
use mcp_observatory.Archive.Tar.{parse_ustar, check_links}
use mcp_observatory.Archive.Segments.{link_escapes_root_exact, front-relative, or-left, or-right}

-- the names that a path goes through, with what has been read of the first
abbrev pub names : Bytes → Bytes → List Bytes
names name [] = name ∷ []
names name (c ∷ s) = if c == b'/' then name ∷ names [] s else names (name ++ c ∷ []) s

-- the names but the last, which is the member's own
abbrev pub parents : List Bytes → List Bytes
parents [] = []
parents (n ∷ []) = []
parents (n ∷ m ∷ ns) = n ∷ parents (m ∷ ns)

-- Whether a walk along the names, from a directory `depth` below the root, leaves the root: it
-- stays at an empty name and at `.`, goes up at `..`, and down at every other name.
abbrev pub leaves : ℕ → List Bytes → Bool
leaves depth [] = false
leaves depth (n ∷ ns) =
    let here = leaves depth ns in
    let up = leaves (depth - 1) ns in
    let down = leaves (depth + 1) ns in
    if null n || equal n (b'.' ∷ [])
    then here
    else if equal n (b'.' ∷ b'.' ∷ [])
    then depth == 0 || up
    else down

-- a drive letter in front
abbrev pub has_drive : Bytes → Bool
has_drive (c ∷ d ∷ s) = (within b'a' b'z' c || within b'A' b'Z' c) && d == b':'
has_drive _ = false

-- What a link of the member at `path` must not point at: nothing, a path from the root of the
-- file system or of a drive, or a path that leads out of the package from where the member is.
abbrev pub points_out : Bytes → Bytes → Bool
points_out path linkname =
    null linkname
    || (front linkname == b'/'
        || (has_drive linkname || leaves 0 (parents (names [] path) ++ names [] linkname)))

-- the name read so far in front of the first of some segments
abbrev prefixed : Bytes → List Bytes → List Bytes
prefixed name [] = name ∷ []
prefixed name (x ∷ xs) = (name ++ x) ∷ xs

prefixed-first_segment :
    (name : Bytes) (c : ℕ) (xs : List Bytes)
    → prefixed (name ++ c ∷ []) xs ≡ prefixed name (first_segment c xs)
prefixed-first_segment name c [] = refl
prefixed-first_segment name c (x ∷ xs) = ap (λ n. n ∷ xs) (append_assoc name (c ∷ []) x)

prefixed-nil : (xs : List Bytes) → null xs ≡ false → prefixed [] xs ≡ xs
prefixed-nil [] h = cc
prefixed-nil (x ∷ xs) h = refl

names-segments : (name s : Bytes) → names name s ≡ prefixed name (segments s)
unfolding segments
names-segments name [] = ap (λ n. n ∷ []) (sym (append-nil name))
names-segments name (c ∷ s) = elim (Bool-cases (c == b'/')) [
  | inl h ↦
      rw (h, names-segments [] s, prefixed-nil (segments s) (null-segments s), append-nil name) refl
  | inr h ↦ rw (h, names-segments (name ++ c ∷ []) s) (prefixed-first_segment name c (segments s))
]

names_lem : (s : Bytes) → names [] s ≡ segments s
names_lem s = names-segments [] s ∙ prefixed-nil (segments s) (null-segments s)

All-parents :
    (ns : List Bytes)
    → All (λ n. is_dotdot n ≡ false) ns
    → All (λ n. is_dotdot n ≡ false) (parents ns)
All-parents [] h = tt
All-parents (n ∷ []) h = tt
All-parents (n ∷ m ∷ ns) (p, h) = (p, All-parents (m ∷ ns) h)

any-All : (ns : List Bytes) → any is_dotdot ns ≡ false → All (λ n. is_dotdot n ≡ false) ns
any-All [] h = tt
any-All (n ∷ ns) h = (or-left _ _ h, any-All ns (or-right _ _ h))

All-append :
    (ns ms : List Bytes)
    → All (λ n. is_dotdot n ≡ false) ns
    → All (λ n. is_dotdot n ≡ false) ms
    → All (λ n. is_dotdot n ≡ false) (ns ++ ms)
All-append [] ms h k = k
All-append (n ∷ ns) ms (p, h) k = (p, All-append ns ms h k)

-- a walk that never goes up stays below where it began
leaves-down :
    (depth : ℕ) (ns : List Bytes) → All (λ n. is_dotdot n ≡ false) ns → leaves depth ns ≡ false
leaves-down depth [] h = refl
leaves-down depth (n ∷ ns) (p, h) = elim (Bool-cases (null n || equal n (b'.' ∷ []))) [
  | inl k ↦ rw k (leaves-down depth ns h)
  | inr k ↦ rw (k, p) (leaves-down (depth + 1) ns h)
]

has_drive-relative : (s : Bytes) → is_absolute s ≡ false → has_drive s ≡ false
unfolding is_absolute
has_drive-relative [] h = refl
has_drive-relative (c ∷ []) h = refl
has_drive-relative (c ∷ d ∷ s) h = or-right _ _ h

-- a link that the check lets pass does not point out
inside :
    (path linkname : Bytes)
    → IsBelowRoot path
    → (null linkname || (is_absolute linkname || has_dotdot_segment linkname)) ≡ false
    → points_out path linkname ≡ false
unfolding has_dotdot_segment
inside path linkname (n, f, b, d) h =
    let relative = or-left _ _ (or-right _ _ h) in
    let names_down = any-All (segments linkname) (or-right _ _ (or-right _ _ h)) in
    outside_false (null linkname) (front linkname == b'/') (has_drive linkname)
      (leaves 0 (parents (names [] path) ++ names [] linkname)) (or-left _ _ h)
      (front-relative linkname relative) (has_drive-relative linkname relative)
      (rw (names_lem path, names_lem linkname)
        (leaves-down 0 (parents (segments path) ++ segments linkname)
          (All-append _ _ (All-parents (segments path) d) names_down)))
  where
    outside_false :
        (a b c e : Bool)
        → a ≡ false
        → b ≡ false
        → c ≡ false
        → e ≡ false
        → (a || (b || (c || e))) ≡ false
    outside_false a b c e p q r t = rw (p, q, r, t) refl

-- one member: the test of the loop, and what it leaves
one_link :
    (a b c d : Bool) → ((a || b) && c) ≡ false → (c ≡ false → d ≡ false) → ((b || a) && d) ≡ false
one_link a b true d h k = ground arith
one_link a b false d h k = rw (k refl) (ground arith)

passed :
    (message : String) (b : Bool) (r : Outcome (Unit {0}))
    → (if b then err message else r) ≡ ok tt
    → (b ≡ false) × (r ≡ ok tt)
passed message true r h = cc
passed message false r h = (refl, h)

links_inside :
    (limits : ArchiveLimits) (ms : List TarMember)
    → All (IsMember limits) ms
    → check_links ms ≡ ok tt
    → All
        (λ m. ((m.typeflag == b'1' || m.typeflag == b'2') && points_out m.path m.linkname) ≡ false)
        ms
unfolding check_links
links_inside limits [] a h = tt
links_inside limits (m ∷ ms) ((p, d, s, l, w), a) h =
    let (e, r) = passed _ _ (check_links ms) h in
    (
      one_link (m.typeflag == b'2') (m.typeflag == b'1') (link_escapes_root m.path m.linkname)
          (points_out m.path m.linkname) e
          λ k. inside m.path m.linkname p (sym (link_escapes_root_exact m.path m.linkname p w) ∙ k),
      links_inside limits ms a r,
    )

-- In an archive that `parse_ustar` accepts and whose links pass the check of the analysis, no hard
-- link (type `1`) and no symbolic link (type `2`) points at nothing, at a path from the root or
-- with a drive letter, or along a path that, from the directory of the link, leaves the package at
-- any point.
pub check_links_safe :
    (limits : ArchiveLimits) (tar_bytes : Bytes) (members : List TarMember)
    → parse_ustar limits tar_bytes ≡ ok members
    → check_links members ≡ ok tt
    → All
        (λ m. ((m.typeflag == b'1' || m.typeflag == b'2') && points_out m.path m.linkname) ≡ false)
        members
check_links_safe limits tar_bytes members h k =
    links_inside limits members (Ensures-ok (parse_ustar-IsArchive limits tar_bytes) h).0 k
