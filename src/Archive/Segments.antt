-- ===== src/Archive/Segments.antt =====
-- `link_escapes_root` on the members of an archive that `parse_ustar` accepts.
use mcp_observatory.Prelude.{
  Bytes, ◌==◌, Bool-cases, null, All, has_byte, after_last, front, ℕ, ◌≡◌, refl, ap, inl, inr, Bool,
  true, false, ◌||◌, List, [], ◌∷◌, ◌++◌, arith, ◌∙◌, sym, subst,
}
use mcp_observatory.Archive.Parts.{
  segments-append, any-append, All-any, directory-after_last, has_byte-append, forward_slashes-same,
  without_leading_slashes-same,
}
use mcp_observatory.Archive.Paths.{
  segments, without_leading_slashes, directory, is_dotdot, has_dotdot_segment,
  normalize_archive_path, is_absolute, resolved_link, link_escapes_root,
}
use mcp_observatory.Archive.Safety.{IsBelowRoot}

normalize_same :
    (s : Bytes)
    → has_byte b'\\' s ≡ false
    → (front s == b'/') ≡ false
    → normalize_archive_path s ≡ s
unfolding normalize_archive_path
normalize_same s h k =
    ap without_leading_slashes (forward_slashes-same s h) ∙ without_leading_slashes-same s k

-- what the check of a link's target asks
abbrev Stays : Bytes → Type 0
Stays target =
    (has_dotdot_segment (normalize_archive_path target) ≡ false)
    × (null (normalize_archive_path target) ≡ false)

stays :
    (s : Bytes)
    → null s ≡ false
    → has_byte b'\\' s ≡ false
    → (front s == b'/') ≡ false
    → has_dotdot_segment s ≡ false
    → Stays s
stays s n h k d = rw (normalize_same s h k) (d, n)

front-append :
    (c : ℕ) (a b : Bytes) → null a ≡ false → (front a == c) ≡ false → (front (a ++ b) == c) ≡ false
front-append c [] b n h = cc
front-append c (x ∷ a) b n h = h

null-append : (a b : Bytes) → null a ≡ false → null (a ++ b) ≡ false
null-append [] b n = cc
null-append (x ∷ a) b n = refl

directory-slash : (path : Bytes) → null (directory path) ≡ false → has_byte b'/' path ≡ true
unfolding directory has_byte
directory-slash [] h = cc
directory-slash (c ∷ s) h = ground arith

front-directory :
    (path : Bytes) → null (directory path) ≡ false → front (directory path) ≡ front path
unfolding directory
front-directory [] h = refl
front-directory (c ∷ s) h = elim (Bool-cases (has_byte b'/' s)) [
  | inl k ↦ rw (k, directory) refl
  | inr k ↦ absurd (none_left c s k h)
]
  where
    none_left : (c : ℕ) (s : Bytes) → has_byte b'/' s ≡ false → null (directory (c ∷ s)) ≡ false → ⊥
    none_left c s k h = ground arith

pub or-left : (a b : Bool) → (a || b) ≡ false → a ≡ false
or-left a b h = ground arith

pub or-right : (a b : Bool) → (a || b) ≡ false → b ≡ false
or-right a b h = ground arith

All-left :
    (xs ys : List Bytes)
    → All (λ part. is_dotdot part ≡ false) (xs ++ ys)
    → All (λ part. is_dotdot part ≡ false) xs
All-left [] ys h = tt
All-left (x ∷ xs) ys (a, h) = (a, All-left xs ys h)

-- the parts of a path, at its last slash
directory-IsBelowRoot :
    (path : Bytes) → IsBelowRoot path → null (directory path) ≡ false → IsBelowRoot (directory path)
directory-IsBelowRoot path (n, f, b, d) h =
    let e = directory-after_last path (directory-slash path h) in
    let rest = after_last b'/' path in
    (
      h,
      subst (λ x. (x == b'/') ≡ false) (sym (front-directory path h)) f,
      or-left _ _ (
          sym (has_byte-append b'\\' (directory path) (b'/' ∷ rest))
          ∙ sym (ap (has_byte b'\\') e)
          ∙ b),
      All-left (segments (directory path)) (segments rest) (
          subst (All (λ part. is_dotdot part ≡ false))
            (ap segments e ∙ segments-append (directory path) rest) d),
    )

joined-Stays :
    (base linkname : Bytes)
    → IsBelowRoot base
    → has_byte b'\\' linkname ≡ false
    → has_dotdot_segment linkname ≡ false
    → Stays (base ++ b'/' ∷ linkname)
unfolding has_dotdot_segment has_byte
joined-Stays base linkname (n, f, b, d) h k =
    stays (base ++ b'/' ∷ linkname) (null-append base _ n)
      (rw (has_byte-append b'\\' base (b'/' ∷ linkname), b, h) refl) (front-append b'/' base _ n f)
      (rw
        (
          segments-append base linkname,
          any-append is_dotdot (segments base) (segments linkname),
          All-any is_dotdot (segments base) d,
          k,
        )
        refl)

pub front-relative :
    (linkname : Bytes) → is_absolute linkname ≡ false → (front linkname == b'/') ≡ false
unfolding is_absolute
front-relative [] h = refl
front-relative (c ∷ []) h = h
front-relative (c ∷ d ∷ s) h = ground arith

resolved_link-Stays :
    (path linkname : Bytes)
    → IsBelowRoot path
    → null linkname ≡ false
    → has_byte b'\\' linkname ≡ false
    → is_absolute linkname ≡ false
    → has_dotdot_segment linkname ≡ false
    → Stays (resolved_link path linkname)
unfolding resolved_link
resolved_link-Stays path linkname (n, f, b, d) ln lb la ld =
    rw (normalize_same path b f) (elim (Bool-cases (null (directory path))) [
      | inl e ↦ rw e (stays linkname ln lb (front-relative linkname la) ld)
      | inr e ↦
          rw e (
            joined-Stays (directory path) linkname (directory-IsBelowRoot path (n, f, b, d) e) lb
              ld)
    ])

-- For a member whose path is below the root, and a link target without backslashes, as
-- `parse_ustar` leaves them, `link_escapes_root` says so of the targets that are empty, absolute, or
-- have a segment `..`, and of no others: the path that it resolves adds nothing.
pub link_escapes_root_exact :
    (path linkname : Bytes)
    → IsBelowRoot path
    → has_byte b'\\' linkname ≡ false
    → link_escapes_root path linkname
      ≡ (null linkname || (is_absolute linkname || has_dotdot_segment linkname))
unfolding link_escapes_root
link_escapes_root_exact path [] p b = refl
link_escapes_root_exact path (c ∷ s) p b =
    elim (Bool-cases (is_absolute (c ∷ s) || has_dotdot_segment (c ∷ s))) [
      | inl e ↦ rw e refl
      | inr e ↦
          let (x, y) = resolved_link-Stays path (c ∷ s) p refl b (or-left _ _ e) (or-right _ _ e) in
          rw (e, x, y) refl
    ]
