-- ===== src/Registry/Json/Strings.antt =====
-- `JsonParser::hex4` and `JsonParser::parse_string` of src/registry.cpp.
use mcp_observatory.Prelude.{
  ℕ, ltb, ◌==◌, within, if◌then◌else◌, zero, suc, ◌+◌, ◌-◌, ◌*◌, Bytes, length, Outcome, ok, err,
  out_of_fuel, ◌>>=◌, ◌>>◌, require, String, ◌&&◌, Option, none, some, [], ◌∷◌, ◌++◌, ◌||◌,
}
use mcp_observatory.Scan.{is_digit}
use mcp_observatory.Registry.Json.Utf8.{utf8_bytes}

unfoldable pub hex_digit : ℕ → Option ℕ
hex_digit c =
    if is_digit c
    then some (c - b'0')
    else if within b'a' b'f' c
    then some (10 + (c - b'a'))
    else if within b'A' b'F' c
    then some (10 + (c - b'A'))
    else none

-- as many digits as `left`, onto a value
unfoldable pub hex_digits : ℕ → ℕ → Bytes → Option (ℕ × Bytes)
hex_digits zero value s = some (value, s)
hex_digits (suc left) value [] = none
hex_digits (suc left) value (c ∷ s) = elim (hex_digit c) [
  | none ↦ none
  | some d ↦ hex_digits left (value * 16 + d) s
]

unfoldable pub hex4 : String → Bytes → Outcome (ℕ × Bytes)
hex4 message s = elim (hex_digits 4 0 s) [ none ↦ err message | some p ↦ ok p ]

-- `consume("\\u")`
unfoldable pub backslash_u : Bytes → Outcome Bytes
backslash_u (a ∷ b ∷ s) = if a == b'\\' && b == b'u' then ok s else err "missing low surrogate"
backslash_u _ = err "missing low surrogate"

-- the second half of a surrogate pair
unfoldable pub low_surrogate : ℕ → Bytes → Outcome (Bytes × Bytes)
low_surrogate first s = do
  low ← backslash_u s
  (second, rest) ← hex4 "invalid low surrogate" low
  require (within 0xdc00 0xdfff second) "invalid low surrogate"
  ok (utf8_bytes (0x10000 + (first - 0xd800) * 1024 + (second - 0xdc00)), rest)

unfoldable pub escaped_character : ℕ × Bytes → Outcome (Bytes × Bytes)
escaped_character (first, rest) =
    if within 0xd800 0xdbff first
    then low_surrogate first rest
    else if within 0xdc00 0xdfff first
    then err "unexpected low surrogate"
    else ok (utf8_bytes first, rest)

-- behind `\u`: a character, in one escape or in two
unfoldable pub unicode_escape : Bytes → Outcome (Bytes × Bytes)
unicode_escape s = hex4 "invalid JSON Unicode escape" s >>= escaped_character

-- the byte that a letter behind a backslash stands for
unfoldable pub simple_escape : ℕ → Option ℕ
simple_escape c =
    if c == b'"' || c == b'\\' || c == b'/'
    then some c
    else if c == b'b'
    then some 8
    else if c == b'f'
    then some 12
    else if c == b'n'
    then some 10
    else if c == b'r'
    then some 13
    else if c == b't'
    then some 9
    else none

unfoldable pub escape : Bytes → Outcome (Bytes × Bytes)
escape [] = err "unterminated JSON escape"
escape (c ∷ s) =
    if c == b'u'
    then unicode_escape s
    else elim (simple_escape c) [ none ↦ err "invalid JSON escape" | some x ↦ ok (x ∷ [], s) ]

abbrev pub prepend_all : Bytes → Bytes × Bytes → Outcome (Bytes × Bytes)
prepend_all piece (value, rest) = ok (piece ++ value, rest)

-- the loop of `parse_string`, behind the opening quote; each round reads a byte
unfoldable pub string_loop : ℕ → Bytes → Outcome (Bytes × Bytes)
string_loop zero s = out_of_fuel
string_loop (suc f) [] = err "unterminated JSON string"
string_loop (suc f) (c ∷ s) =
    let plain = string_loop f s >>= prepend_all (c ∷ []) in
    let escaped = escape s >>= λ (p : Bytes × Bytes). string_loop f p.1 >>= prepend_all p.0 in
    if c == b'"'
    then ok ([], s)
    else if ltb c 0x20
    then err "control character in JSON string"
    else if c == b'\\'
    then escaped
    else plain

unfoldable pub parse_string : Bytes → Outcome (Bytes × Bytes)
parse_string [] = err "expected JSON string"
parse_string (c ∷ s) =
    if c == b'"' then string_loop (suc (length s)) s else err "expected JSON string"
