-- ===== src/Archive/Tar.antt =====
-- `parse_ustar` of src/analyze.cpp.
use mcp_observatory.Prelude.{
  Bytes, ℕ, ltb, leb, ◌==◌, if◌then◌else◌, length, null, take, drop, all, until_byte, front,
  Outcome, ok, out_of_fuel, ◌>>=◌, ◌>>◌, require, zero, suc, ◌+◌, ◌-◌, ◌*◌, ◌/◌, ◌%◌, ◌^◌, Bool,
  not, ◌&&◌, ◌||◌, List, [], ◌∷◌, ◌++◌, err,
}
use mcp_observatory.Archive.Model.{ArchiveLimits, TarMember, TarState}
use mcp_observatory.Archive.Octal.{parse_octal}
use mcp_observatory.Archive.Paths.{
  has_dotdot_segment, forward_slashes, normalize_archive_path, is_absolute, link_escapes_root,
}

-- `header.substr(position, count)`
abbrev pub field_of : ℕ → ℕ → Bytes → Bytes
field_of position count header = take count (drop position header)

-- a field of text, up to its first zero byte
abbrev pub text_field : ℕ → ℕ → Bytes → Bytes
text_field position count header = until_byte 0 (field_of position count header)

unfoldable pub entry_path : Bytes → Bytes
unfolding forward_slashes
entry_path header =
    let name = text_field 0 100 header in
    let prefix = text_field 345 155 header in
    forward_slashes (if null prefix then name else prefix ++ (b'/' ∷ name))

abbrev pub is_regular : ℕ → Bool
is_regular typeflag = typeflag == b'0' || typeflag == 0

abbrev pub is_device : ℕ → Bool
is_device typeflag = typeflag == b'3' || typeflag == b'4' || typeflag == b'6'

-- the size in blocks of 512 bytes
abbrev pub padded : ℕ → ℕ
padded size = (size + 511) / 512 * 512

abbrev pub push_member : TarMember → TarState → TarState
push_member m st = record {
  members = st.members ++ m ∷ [];
  total = st.total + (if is_regular m.typeflag then m.size else 0);
}

-- the checks of a path
unfoldable pub member_path : Bytes → Outcome Bytes
unfolding is_absolute normalize_archive_path has_dotdot_segment
member_path raw = do
  require (not (is_absolute raw)) "archive contains absolute path entry"
  let path = normalize_archive_path raw
  require (not (null path)) "malformed archive entry with empty path"
  require (not (has_dotdot_segment path)) "archive contains parent-traversal path entry"
  ok path

-- the checks of a size
unfoldable pub member_size : ArchiveLimits → ℕ → Bool × ℕ → Outcome ℕ
member_size limits total (valid, size) = do
  require valid "malformed archive size field"
  require (leb size limits.maximum_individual_file_bytes)
      "archive entry exceeds individual file size limit"
  require
      (leb total limits.maximum_total_uncompressed_bytes
        && leb size (limits.maximum_total_uncompressed_bytes - total))
      "archive exceeds total uncompressed size limit"
  ok size

-- a header and what stands behind it: the state with its member, and the rest
unfoldable pub tar_entry : ArchiveLimits → TarState → Bytes → Bytes → Outcome (TarState × Bytes)
unfolding member_path member_size entry_path parse_octal forward_slashes
tar_entry limits st header rest = do
  require (ltb (length st.members) limits.maximum_files)
      "archive file count exceeds configured limit"
  path ← member_path (entry_path header)
  size ← member_size limits st.total (parse_octal (field_of 124 12 header))
  let typeflag = front (drop 156 header)
  require (not (is_device typeflag)) "archive contains device or fifo entry"
  require (leb size (length rest)) "truncated archive member data"
  ok (
    push_member
        record {
          path = path;
          typeflag = typeflag;
          size = size;
          linkname = forward_slashes (text_field 157 100 header);
          content = if is_regular typeflag then take size rest else [];
          mode = (parse_octal (field_of 100 8 header)).1 % 2 ^ 32;
        }
        st,
    drop (padded size) rest,
  )

abbrev pub is_zero : ℕ → Bool
is_zero c = c == 0

-- The loop over headers: it ends at a header of zeros, or where no header is left.
unfoldable pub tar_loop : ℕ → ArchiveLimits → TarState → Bytes → Outcome TarState
unfolding tar_entry
tar_loop zero limits st s = out_of_fuel
tar_loop (suc f) limits st s =
    let next = tar_entry limits st (take 512 s) (drop 512 s) >>= λ (p : TarState × Bytes).
    tar_loop f limits p.0 p.1 in
    if ltb (length s) 512 then ok st else if all is_zero (take 512 s) then ok st else next

abbrev pub no_members : TarState
no_members = record { members = []; total = 0 }

unfoldable pub parse_ustar : ArchiveLimits → Bytes → Outcome (List TarMember)
unfolding tar_loop
parse_ustar limits tar_bytes = do
  st ← tar_loop (suc (length tar_bytes)) limits no_members tar_bytes
  ok st.members

abbrev pub is_link : ℕ → Bool
is_link typeflag = typeflag == b'2' || typeflag == b'1'

-- the check of the links, as `analyze_package_tarball_bytes` meets the members
unfoldable pub check_links : List TarMember → Outcome (Unit {0})
unfolding link_escapes_root
check_links [] = ok tt
check_links (m ∷ members) =
    let rest = check_links members in
    if is_link m.typeflag && link_escapes_root m.path m.linkname
    then err "archive link target escapes package root"
    else rest
