-- ===== src/Archive/Safety.antt =====
-- What the members that `parse_ustar` accepts are.
use mcp_observatory.Prelude.{
  Bytes, ◌==◌, if◌then◌else◌, not-true→false, length, null, take, All, has_byte, front, Ensures,
  holds, Ensures-require, ℕ, zero, suc, ◌+◌, ◌≤◌, ◌<◌, ◌≡◌, refl, ap, Bool, false, not, List, [],
  ◌∷◌, ◌++◌, arith, ltb, leb, ltb→lt, leb→le, drop, all, length-drop, Ensures-bind, Ensures-branch,
  ◌-◌, true, ◌&&◌, length-append, All-concat,
}
use mcp_observatory.Scan.Tail.{IsTail, here, there, length-IsTail}
use mcp_observatory.Archive.Model.{ArchiveLimits, TarMember, TarState}
use mcp_observatory.Archive.Paths.{
  is_dotdot, any, segments, has_dotdot_segment, forward_slashes, without_leading_slashes,
  normalize_archive_path, is_absolute,
}
use mcp_observatory.Archive.Tar.{
  is_regular, is_device, push_member, member_path, tar_entry, field_of, entry_path, padded,
  member_size, tar_loop, parse_ustar, is_zero, no_members, text_field,
}
use mcp_observatory.Archive.Octal.{parse_octal}

any-false :
    (test : Bytes → Bool) (xs : List Bytes) → any test xs ≡ false → All (λ x. test x ≡ false) xs
any-false test [] h = tt
any-false test (x ∷ xs) h = (ground arith, any-false test xs (ground arith))

forward_slashes-has_byte : (s : Bytes) → has_byte b'\\' (forward_slashes s) ≡ false
unfolding has_byte forward_slashes
forward_slashes-has_byte [] = refl
forward_slashes-has_byte (c ∷ s) = ground (arith, forward_slashes-has_byte s)

without_leading_slashes-has_byte :
    (s : Bytes) → has_byte b'\\' s ≡ false → has_byte b'\\' (without_leading_slashes s) ≡ false
unfolding has_byte without_leading_slashes
without_leading_slashes-has_byte [] h = refl
without_leading_slashes-has_byte (c ∷ s) h = ground (arith, without_leading_slashes-has_byte s)

without_leading_slashes-front : (s : Bytes) → (front (without_leading_slashes s) == b'/') ≡ false
unfolding without_leading_slashes
without_leading_slashes-front [] = refl
without_leading_slashes-front (c ∷ s) = ground (arith, without_leading_slashes-front s)

-- A path below the root of the package: with something in it, no slash in front, no backslash and
-- no segment `..`.
abbrev pub IsBelowRoot : Bytes → Type 0
IsBelowRoot path =
    (null path ≡ false)
    × ((front path == b'/') ≡ false)
    × (has_byte b'\\' path ≡ false)
    × All (λ part. is_dotdot part ≡ false) (segments path)

member_path-IsBelowRoot : (raw : Bytes) → Ensures IsBelowRoot (member_path raw)
unfolding member_path normalize_archive_path has_dotdot_segment
member_path-IsBelowRoot raw = Ensures-require (not (is_absolute raw)) _ λ _.
    let path = normalize_archive_path raw in
    Ensures-require (not (null path)) _ λ h. Ensures-require (not (has_dotdot_segment path)) _ λ k.
      holds (
        not-true→false _ h,
        without_leading_slashes-front (forward_slashes raw),
        without_leading_slashes-has_byte (forward_slashes raw) (forward_slashes-has_byte raw),
        any-false is_dotdot (segments path) (not-true→false _ k),
      )

-- the bytes that a member stores
abbrev stored : TarMember → ℕ
stored m = if is_regular m.typeflag then m.size else 0

-- A member whose path is below the root, that is no device, and that stores as many bytes as its
-- size says if it is a file, and none if not; the target of a link is written without backslashes.
abbrev pub IsMember : ArchiveLimits → TarMember → Type 0
IsMember limits m =
    IsBelowRoot m.path
    × (is_device m.typeflag ≡ false)
    × (m.size ≤ limits.maximum_individual_file_bytes)
    × (length m.content ≡ stored m)
    × (has_byte b'\\' m.linkname ≡ false)

-- the bytes of all files
abbrev pub stored_bytes : List TarMember → ℕ
stored_bytes [] = 0
stored_bytes (m ∷ ms) = length m.content + stored_bytes ms

abbrev pub IsArchive : ArchiveLimits → List TarMember → Type 0
IsArchive limits ms =
    All (IsMember limits) ms
    × (length ms ≤ limits.maximum_files)
    × (stored_bytes ms ≤ limits.maximum_total_uncompressed_bytes)

abbrev IsState : ArchiveLimits → TarState → Type 0
IsState limits st = IsArchive limits st.members × (st.total ≡ stored_bytes st.members)

stored_bytes-concat :
    (ms : List TarMember) (m : TarMember)
    → stored_bytes (ms ++ m ∷ []) ≡ stored_bytes ms + length m.content
stored_bytes-concat [] m = omega arith
stored_bytes-concat (x ∷ ms) m = omega (arith, stored_bytes-concat ms m)

length-take : (n : ℕ) (s : Bytes) → n ≤ length s → length (take n s) ≡ n
length-take zero s h = refl
length-take (suc n) [] h = absurd (omega arith)
length-take (suc n) (c ∷ s) h = ap suc (length-take n s (omega arith))

push_member-IsState :
    (limits : ArchiveLimits) (st : TarState) (m : TarMember)
    → IsState limits st
    → IsMember limits m
    → length st.members < limits.maximum_files
    → st.total + stored m ≤ limits.maximum_total_uncompressed_bytes
    → IsState limits (push_member m st)
push_member-IsState limits st m ((a, n, b), t) (p, d, s, l, w) f c = (
  (
    All-concat (IsMember limits) st.members m a (p, d, s, l, w),
    omega (arith, length-append st.members (m ∷ [])),
    omega (arith, stored_bytes-concat st.members m),
  ),
  omega (arith, stored_bytes-concat st.members m),
)

member_size-fits :
    (limits : ArchiveLimits) (total : ℕ) (field : Bool × ℕ)
    → Ensures
        (λ size.
          (size ≤ limits.maximum_individual_file_bytes)
          × (total + size ≤ limits.maximum_total_uncompressed_bytes))
        (member_size limits total field)
unfolding member_size
member_size-fits limits total (valid, size) = Ensures-require valid _ λ _.
    Ensures-require (leb size limits.maximum_individual_file_bytes) _ λ h.
      Ensures-require
        (leb total limits.maximum_total_uncompressed_bytes
          && leb size (limits.maximum_total_uncompressed_bytes - total))
        _ λ k. holds (ground arith, ground arith)

content-length :
    (regular : Bool) (size : ℕ) (rest : Bytes)
    → size ≤ length rest
    → length (if regular then take size rest else []) ≡ (if regular then size else 0)
content-length true size rest h = length-take size rest h
content-length false size rest h = refl

stored-le :
    (regular : Bool) (size bound total : ℕ)
    → total + size ≤ bound
    → total + (if regular then size else 0) ≤ bound
stored-le true size bound total h = h
stored-le false size bound total h = omega arith

drop-IsTail : (n : ℕ) (s : Bytes) → IsTail (drop n s) s
drop-IsTail zero s = here
drop-IsTail (suc n) [] = here
drop-IsTail (suc n) (c ∷ s) = there (drop-IsTail n s)

tar_entry-IsState :
    (limits : ArchiveLimits) (st : TarState) (header rest : Bytes)
    → IsState limits st
    → Ensures (λ p. IsState limits p.0 × IsTail p.1 rest) (tar_entry limits st header rest)
unfolding tar_entry
tar_entry-IsState limits st header rest i =
    Ensures-require (ltb (length st.members) limits.maximum_files) _ λ f.
      Ensures-bind (member_path-IsBelowRoot (entry_path header)) λ path p.
        Ensures-bind (member_size-fits limits st.total (parse_octal (field_of 124 12 header)))
          λ size (s, t).
            let typeflag = front (drop 156 header) in
            Ensures-require (not (is_device typeflag)) _ λ d.
              Ensures-require (leb size (length rest)) _ λ l. holds (
                push_member-IsState limits st _ i
                    (
                      p,
                      not-true→false _ d,
                      s,
                      content-length (is_regular typeflag) size rest (leb→le _ _ l),
                      forward_slashes-has_byte (text_field 157 100 header),
                    )
                    (ltb→lt _ _ f) (stored-le (is_regular typeflag) size _ st.total t),
                drop-IsTail (padded size) rest,
              )

-- a round reads a header
enough :
    (s r : Bytes) (f : ℕ)
    → ltb (length s) 512 ≡ false
    → length r ≤ length (drop 512 s)
    → length s < suc f
    → length r < f
enough s r f h l b = ground (arith, length-drop 512 s)

tar_loop-IsState :
    (f : ℕ) (limits : ArchiveLimits) (st : TarState) (s : Bytes)
    → length s < f
    → IsState limits st
    → Ensures (IsState limits) (tar_loop f limits st s)
unfolding tar_loop
tar_loop-IsState zero limits st s b i = absurd (omega arith)
tar_loop-IsState (suc f) limits st s b i =
    Ensures-branch (ltb (length s) 512) (λ _. holds i)
      (λ h.
        Ensures-branch (all is_zero (take 512 s)) (λ _. holds i)
          (λ _.
            Ensures-bind (tar_entry-IsState limits st (take 512 s) (drop 512 s) i) λ p (j, t).
              tar_loop-IsState f limits p.0 p.1 (enough s p.1 f h (length-IsTail t) b) j))

-- On every text `parse_ustar` ends: with a message, or with an archive in which each path is below
-- the root, no member is a device, no target of a link has a backslash, each file has its size and
-- is no larger than a file may be, and neither the number of members nor their bytes in all exceed
-- the limits.
pub parse_ustar-IsArchive :
    (limits : ArchiveLimits) (tar_bytes : Bytes)
    → Ensures (IsArchive limits) (parse_ustar limits tar_bytes)
unfolding parse_ustar
parse_ustar-IsArchive limits tar_bytes =
    Ensures-bind
      (tar_loop-IsState (suc (length tar_bytes)) limits no_members tar_bytes (omega arith)
        ((tt, (omega arith), (omega arith)), refl))
      λ st i. holds i.0
