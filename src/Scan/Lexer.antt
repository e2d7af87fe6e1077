-- ===== src/Scan/Lexer.antt =====
-- Spaces, single bytes, strings and unsigned numbers.
use mcp_observatory.Prelude.{
  ℕ, ltb, ◌==◌, if◌then◌else◌, within, Bytes, digit, Outcome, ◌>>=◌, ok, err, ◌+◌, ◌*◌, ◌^◌, String,
  Bool, true, false, ◌&&◌, ◌||◌, [], ◌∷◌,
}

-- What differs between the three copies of the lexer.
pub record Dialect : Type 0 where
  -- whether `skip_space` skips a line feed
  pub newline_is_space : Bool
  pub escaped_message : String
  pub nesting_message : String
  pub escape_message : String
  pub colon_message : String

unfoldable pub is_space : Dialect → ℕ → Bool
is_space dialect c =
    c == b' ' || c == b'\t' || c == b'\r' || (dialect.newline_is_space && c == b'\n')

unfoldable pub skip_space : Dialect → Bytes → Bytes
unfolding is_space
skip_space dialect [] = []
skip_space dialect (c ∷ s) = if is_space dialect c then skip_space dialect s else c ∷ s

-- `consume`, and what its caller says when it fails
unfoldable pub expect : ℕ → String → Bytes → Outcome Bytes
expect byte message [] = err message
expect byte message (c ∷ s) = if c == byte then ok s else err message

prepend : ℕ → Bytes × Bytes → Outcome (Bytes × Bytes)
prepend c (value, rest) = ok (c ∷ value, rest)

-- the loop of `parse_plain_string`, behind the opening quote
unfoldable pub plain_body : Dialect → Bytes → Outcome (Bytes × Bytes)
unfolding prepend
plain_body dialect [] = err "unterminated JSON string"
plain_body dialect (c ∷ s) =
    let more = plain_body dialect s >>= prepend c in
    if c == b'"'
    then ok ([], s)
    else if c == b'\\' || ltb c 0x20
    then err dialect.escaped_message
    else more

-- A string without escapes, and the text behind its closing quote.
unfoldable pub plain_string : Dialect → Bytes → Outcome (Bytes × Bytes)
unfolding plain_body expect
plain_string dialect s = do body ← expect b'"' "expected JSON string" s; plain_body dialect body

-- the loop of `skip_string`; the flag says that the byte before was a backslash
unfoldable pub string_body : Dialect → Bool → Bytes → Outcome Bytes
string_body dialect true [] = err dialect.escape_message
string_body dialect false [] = err "unterminated JSON string"
string_body dialect true (c ∷ s) = string_body dialect false s
string_body dialect false (c ∷ s) =
    let more = string_body dialect (c == b'\\') s in
    if c == b'"' then ok s else if ltb c 0x20 then err "control character in JSON string" else more

-- With no opening quote `skip_string` fails and sets no message.
unfoldable pub skip_string : Dialect → Bytes → Outcome Bytes
unfolding string_body expect
skip_string dialect s = do body ← expect b'"' "" s; string_body dialect false body

abbrev pub is_digit : ℕ → Bool
is_digit c = within b'0' b'9' c

push_front : ℕ → Bytes × Bytes → Bytes × Bytes
push_front c (ds, rest) = (c ∷ ds, rest)

-- the digits at the front, and what follows them
unfoldable pub span_digits : Bytes → Bytes × Bytes
unfolding push_front
span_digits [] = ([], [])
span_digits (c ∷ s) = if is_digit c then push_front c (span_digits s) else ([], c ∷ s)

-- the value of a run of decimal digits
unfoldable pub decimal : ℕ → Bytes → ℕ
decimal value [] = value
decimal value (c ∷ s) = decimal (value * 10 + digit c) s

-- `std::from_chars` into a `std::uint32_t`, on digits alone
unfoldable pub uint32_value : String → String → Bytes × Bytes → Outcome (ℕ × Bytes)
unfolding decimal
uint32_value missing too_large ([], rest) = err missing
uint32_value missing too_large (d ∷ ds, rest) =
    if ltb (decimal 0 (d ∷ ds)) (2 ^ 32) then ok (decimal 0 (d ∷ ds), rest) else err too_large

unfoldable pub parse_uint32 : String → String → Bytes → Outcome (ℕ × Bytes)
unfolding span_digits uint32_value
parse_uint32 missing too_large s = uint32_value missing too_large (span_digits s)
