-- ===== src/Package/Base64.antt =====
-- `base64_decode` of src/analyze.cpp.
use mcp_observatory.Prelude.{
  Bytes, ◌==◌, if◌then◌else◌, within, length, Outcome, ok, err, ◌>>=◌, ◌>>◌, require, ℕ, ◌+◌, ◌-◌,
  ◌*◌, ◌/◌, ◌%◌, Bool, not, [], ◌∷◌, ◌++◌,
}

-- -1 is the failure, of which the caller makes this message
unfoldable pub decode_char : ℕ → Outcome ℕ
decode_char c =
    if within b'A' b'Z' c
    then ok (c - b'A')
    else if within b'a' b'z' c
    then ok (c - b'a' + 26)
    else if within b'0' b'9' c
    then ok (c - b'0' + 52)
    else if c == b'+'
    then ok 62
    else if c == b'/'
    then ok 63
    else err "invalid base64 character"

-- the third and the fourth character of a group may be `=`
unfoldable pub padded_char : ℕ → Outcome ℕ
unfolding decode_char
padded_char c = if c == b'=' then ok 0 else decode_char c

-- the bytes of a group of four characters
unfoldable pub group_bytes : Bool → Bool → ℕ → Bytes
group_bytes second third value =
    (value / 65536 % 256)
    ∷ ((if second then value / 256 % 256 ∷ [] else []) ++ (if third then value % 256 ∷ [] else []))

unfoldable pub decode_group : ℕ → ℕ → ℕ → ℕ → Outcome Bytes
unfolding decode_char padded_char group_bytes
decode_group w x y z = do
  a ← decode_char w
  b ← decode_char x
  c ← padded_char y
  d ← padded_char z
  ok (group_bytes (not (y == b'=')) (not (z == b'=')) (a * 262144 + b * 4096 + c * 64 + d))

-- the loop over groups; `base64_decode` has checked that no group is cut off
unfoldable pub decode_groups : Bytes → Outcome Bytes
unfolding decode_group
decode_groups (w ∷ x ∷ y ∷ z ∷ s) = do
  let rest = decode_groups s
  bytes ← decode_group w x y z
  later ← rest
  ok (bytes ++ later)
decode_groups _ = ok []

unfoldable pub base64_decode : Bytes → Outcome Bytes
unfolding decode_groups
base64_decode input = do
  require (length input % 4 == 0) "invalid base64 length"
  decode_groups input
