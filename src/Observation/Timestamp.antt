-- ===== src/Observation/Timestamp.antt =====
-- `valid_utc_timestamp` of src/observation.cpp.
use mcp_observatory.Prelude.{
  ℕ, leb, ◌==◌, Bytes, digit, length, zero, suc, ◌+◌, ◌*◌, Bool, true, ◌&&◌, ◌||◌, [], ◌∷◌,
}
use mcp_observatory.Scan.{is_digit}

-- `value[index]`; the callers have tested the size
abbrev pub byte_at : Bytes → ℕ → ℕ
byte_at [] i = 0
byte_at (c ∷ s) zero = c
byte_at (c ∷ s) (suc i) = byte_at s i

-- the two digits at an offset, as a number
abbrev pub two_digits : Bytes → ℕ → ℕ
two_digits value offset = digit (byte_at value offset) * 10 + digit (byte_at value (offset + 1))

-- the separators, at their places
abbrev pub has_separators : Bytes → Bool
has_separators value =
    byte_at value 4 == b'-'
    && byte_at value 7 == b'-'
    && byte_at value 10 == b'T'
    && byte_at value 13 == b':'
    && byte_at value 16 == b':'
    && byte_at value 19 == b'Z'

-- the places that the loop skips
abbrev is_separator_place : ℕ → Bool
is_separator_place i = i == 4 || i == 7 || i == 10 || i == 13 || i == 16 || i == 19

-- the loop, from place `i` on, with `n` places left
abbrev pub digits_loop : ℕ → ℕ → Bytes → Bool
digits_loop zero i value = true
digits_loop (suc n) i value =
    (is_separator_place i || is_digit (byte_at value i)) && digits_loop n (i + 1) value

unfoldable pub valid_utc_timestamp : Bytes → Bool
valid_utc_timestamp value =
    length value == 20
    && has_separators value
    && digits_loop (length value) 0 value
    && leb 1 (two_digits value 5)
    && leb (two_digits value 5) 12
    && leb 1 (two_digits value 8)
    && leb (two_digits value 8) 31
    && leb (two_digits value 11) 23
    && leb (two_digits value 14) 59
    && leb (two_digits value 17) 60
