-- ===== src/Registry/Json/Utf8.antt =====
-- `valid_utf8` and `append_utf8` of src/registry.cpp.
use mcp_observatory.Prelude.{
  ℕ, ltb, leb, ◌==◌, within, if◌then◌else◌, ◌+◌, ◌-◌, ◌*◌, ◌/◌, ◌%◌, Bytes, Bool, true, false, not,
  ◌&&◌, ◌||◌, Option, none, some, [], ◌∷◌,
}

-- Between characters, or with so many bytes of a character to come: how many followed its first
-- byte in all, and its value so far.
pub data Utf8 : Type 0 where
  ready : Utf8
  pending : ℕ → ℕ → ℕ → Utf8

-- the first byte of a character
unfoldable pub first_byte : ℕ → Option Utf8
first_byte c =
    if leb c 0x7f
    then some ready
    else if within 0xc2 0xdf c
    then some (pending 1 1 (c % 32))
    else if within 0xe0 0xef c
    then some (pending 2 2 (c % 16))
    else if within 0xf0 0xf4 c
    then some (pending 3 3 (c % 8))
    else none

-- what the value of a character of so many more bytes must not be
unfoldable pub is_overlong : ℕ → ℕ → Bool
is_overlong count value =
    (count == 2 && (ltb value 0x800 || within 0xd800 0xdfff value))
    || (count == 3 && (ltb value 0x10000 || ltb 0x10ffff value))

unfoldable pub next_byte : Utf8 → ℕ → Option Utf8
unfolding first_byte is_overlong
next_byte ready c = first_byte c
next_byte (pending left count value) c =
    let value' = value * 64 + c % 64 in
    if not (within 0x80 0xbf c)
    then none
    else if ltb 1 left
    then some (pending (left - 1) count value')
    else if is_overlong count value'
    then none
    else some ready

unfoldable pub utf8_from : Option Utf8 → Bytes → Option Utf8
unfolding next_byte
utf8_from none s = none
utf8_from (some u) [] = some u
utf8_from (some u) (c ∷ s) = utf8_from (next_byte u c) s

abbrev pub is_ready : Option Utf8 → Bool
is_ready (some ready) = true
is_ready _ = false

unfoldable pub valid_utf8 : Bytes → Bool
unfolding utf8_from
valid_utf8 input = is_ready (utf8_from (some ready) input)

-- The bytes that `append_utf8` appends. `a | b` is `a + b` where the bits do not overlap.
unfoldable pub utf8_bytes : ℕ → Bytes
utf8_bytes value =
    if leb value 0x7f
    then value ∷ []
    else if leb value 0x7ff
    then (0xc0 + value / 64) ∷ (0x80 + value % 64) ∷ []
    else if leb value 0xffff
    then (0xe0 + value / 4096) ∷ (0x80 + value / 64 % 64) ∷ (0x80 + value % 64) ∷ []
    else (0xf0 + value / 262144)
      ∷ (0x80 + value / 4096 % 64)
      ∷ (0x80 + value / 64 % 64)
      ∷ (0x80 + value % 64)
      ∷ []
