-- ===== src/Registry/Json/Numbers.antt =====
-- `JsonParser::parse_number` of src/registry.cpp, part by part.
use mcp_observatory.Prelude.{
  ◌==◌, within, if◌then◌else◌, Bytes, null, Outcome, ok, err, ◌>>=◌, ◌>>◌, require, String, not,
  ◌||◌, [], ◌∷◌, ◌++◌,
}
use mcp_observatory.Scan.{span_digits}

unfoldable pub number_sign : Bytes → Bytes × Bytes
number_sign [] = ([], [])
number_sign (c ∷ s) = if c == b'-' then (c ∷ [], s) else ([], c ∷ s)

unfoldable pub number_integer : Bytes → Outcome (Bytes × Bytes)
number_integer [] = err "invalid JSON number"
number_integer (c ∷ s) =
    if c == b'0'
    then ok (c ∷ [], s)
    else if within b'1' b'9' c
    then ok (span_digits (c ∷ s))
    else err "invalid JSON number"

-- digits behind some text, at least one
unfoldable pub digits_behind : String → Bytes → Bytes × Bytes → Outcome (Bytes × Bytes)
digits_behind message mark (digits, rest) = do
  require (not (null digits)) message
  ok (mark ++ digits, rest)

unfoldable pub number_fraction : Bytes → Outcome (Bytes × Bytes)
number_fraction [] = ok ([], [])
number_fraction (c ∷ s) =
    if c == b'.'
    then digits_behind "invalid JSON fraction" (c ∷ []) (span_digits s)
    else ok ([], c ∷ s)

-- the sign of an exponent
unfoldable pub exponent_sign : Bytes → Bytes × Bytes
exponent_sign [] = ([], [])
exponent_sign (c ∷ s) = if c == b'+' || c == b'-' then (c ∷ [], s) else ([], c ∷ s)

unfoldable pub number_exponent : Bytes → Outcome (Bytes × Bytes)
number_exponent [] = ok ([], [])
number_exponent (c ∷ s) =
    if c == b'e' || c == b'E'
    then digits_behind "invalid JSON exponent" (c ∷ (exponent_sign s).0)
        (span_digits (exponent_sign s).1)
    else ok ([], c ∷ s)

-- The text of a number, and what follows it.
unfoldable pub parse_number : Bytes → Outcome (Bytes × Bytes)
parse_number s = do
  let (sign, unsigned) = number_sign s
  (whole, after_whole) ← number_integer unsigned
  (fraction, after_fraction) ← number_fraction after_whole
  (exponent, rest) ← number_exponent after_fraction
  ok (sign ++ (whole ++ (fraction ++ exponent)), rest)
