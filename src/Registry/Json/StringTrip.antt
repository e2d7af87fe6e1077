-- ===== src/Registry/Json/StringTrip.antt =====
-- `parse_string` reads what `append_json_string` writes.
use mcp_observatory.Prelude.{
  ℕ, suc, ◌/◌, ◌%◌, ◌<◌, Bytes, ok, ◌>>=◌, some, [], ◌∷◌, ◌++◌, ◌≡◌, arith, ◌+◌, ◌*◌, refl, ◌∙◌,
  ltb, ◌==◌, ==→eq, sym, ap, subst, true, false, String, Bool-cases, ltb→lt, length, length-append,
  zero, ◌≤◌, inl, inr, append_assoc,
}
use mcp_observatory.Registry.Json.Strings.{
  hex_digit, hex_digits, hex4, unicode_escape, escaped_character, escape, string_loop, prepend_all,
  simple_escape, parse_string,
}
use mcp_observatory.Registry.Json.Writer.{lower_hex, escaped_byte, escaped_text, json_string}
use mcp_observatory.Registry.Json.Utf8.{utf8_bytes}

hex_digit-lower_hex : (n : ℕ) → n < 16 → hex_digit (lower_hex n) ≡ some n
unfolding hex_digit
hex_digit-lower_hex n h = ground arith

hex_digits-four :
    (a b c d : ℕ) (w x y z : ℕ) (t : Bytes)
    → hex_digit a ≡ some w
    → hex_digit b ≡ some x
    → hex_digit c ≡ some y
    → hex_digit d ≡ some z
    → hex_digits 4 0 (a ∷ b ∷ c ∷ d ∷ t) ≡ some (((w * 16 + x) * 16 + y) * 16 + z, t)
unfolding hex_digits
hex_digits-four a b c d w x y z t h i j k = ground arith

-- `00` and two digits
hex_digits-escaped :
    (c : ℕ) (t : Bytes)
    → c < 0x20
    → hex_digits 4 0 (b'0' ∷ b'0' ∷ lower_hex (c / 16) ∷ lower_hex (c % 16) ∷ t) ≡ some (c, t)
hex_digits-escaped c t h =
    hex_digits-four b'0' b'0' (lower_hex (c / 16)) (lower_hex (c % 16)) 0 0 (c / 16) (c % 16) t
      (hex_digit-lower_hex 0 (omega arith)) (hex_digit-lower_hex 0 (omega arith))
      (hex_digit-lower_hex (c / 16) (omega arith)) (hex_digit-lower_hex (c % 16) (omega arith))
    ∙ ap (λ n. some (n, t)) (omega arith)

utf8_bytes-ascii : (c : ℕ) → c < 0x20 → utf8_bytes c ≡ c ∷ []
unfolding utf8_bytes
utf8_bytes-ascii c h = ground arith

escaped_character-ascii : (c : ℕ) (t : Bytes) → c < 0x20 → escaped_character (c, t) ≡ ok (c ∷ [], t)
unfolding escaped_character
escaped_character-ascii c t h = ground (arith, utf8_bytes-ascii c)

hex4-escaped :
    (m : String) (c : ℕ) (t : Bytes)
    → c < 0x20
    → hex4 m (b'0' ∷ b'0' ∷ lower_hex (c / 16) ∷ lower_hex (c % 16) ∷ t) ≡ ok (c, t)
unfolding hex4
hex4-escaped m c t h = rw (hex_digits-escaped c t h, hex4) refl

escape-escaped :
    (c : ℕ) (t : Bytes)
    → c < 0x20
    → escape (b'u' ∷ b'0' ∷ b'0' ∷ lower_hex (c / 16) ∷ lower_hex (c % 16) ∷ t) ≡ ok (c ∷ [], t)
unfolding escape unicode_escape
escape-escaped c t h =
    rw (hex4-escaped "invalid JSON Unicode escape" c t h, escape, unicode_escape)
      (escaped_character-ascii c t h)

-- one round at a written byte
abbrev ReadsBack : ℕ → Bytes → ℕ → Type 0
ReadsBack f t c =
    string_loop (suc f) (escaped_byte c ++ t) ≡ (string_loop f t >>= prepend_all (c ∷ []))

escape_round :
    (f : ℕ) (t r : Bytes) (c : ℕ)
    → escape t ≡ ok (c ∷ [], r)
    → string_loop (suc f) (b'\\' ∷ t) ≡ (string_loop f r >>= prepend_all (c ∷ []))
unfolding string_loop
escape_round f t r c h = rw h refl

-- at a byte that is known
at_byte : (f : ℕ) (t : Bytes) (c d : ℕ) → (c == d) ≡ true → ReadsBack f t d → ReadsBack f t c
at_byte f t c d e h = subst (ReadsBack f t) (sym (==→eq c d e)) h

letter :
    (f : ℕ) (t : Bytes) (c d : ℕ)
    → escaped_byte d ≡ b'\\' ∷ c ∷ []
    → escape (c ∷ t) ≡ ok (d ∷ [], t)
    → ReadsBack f t d
letter f t c d e h = rw e (escape_round f (c ∷ t) t d h)

escaped_byte-plain :
    (c : ℕ)
    → (c == b'"') ≡ false
    → (c == b'\\') ≡ false
    → ltb c 0x20 ≡ false
    → escaped_byte c ≡ c ∷ []
unfolding escaped_byte
escaped_byte-plain c p q r = ground arith

plain_round :
    (f : ℕ) (t : Bytes) (c : ℕ)
    → (c == b'"') ≡ false
    → (c == b'\\') ≡ false
    → ltb c 0x20 ≡ false
    → ReadsBack f t c
unfolding string_loop
plain_round f t c p q r = rw (escaped_byte-plain c p q r, p, r, q) refl

escaped_byte-control :
    (c : ℕ)
    → (c == 8) ≡ false
    → (c == 12) ≡ false
    → (c == 10) ≡ false
    → (c == 13) ≡ false
    → (c == 9) ≡ false
    → ltb c 0x20 ≡ true
    → escaped_byte c ≡ b'\\' ∷ b'u' ∷ b'0' ∷ b'0' ∷ lower_hex (c / 16) ∷ lower_hex (c % 16) ∷ []
unfolding escaped_byte
escaped_byte-control c p q r s u h = ground arith

escape_letters :
    (t : Bytes)
    → (escape (b'"' ∷ t) ≡ ok (b'"' ∷ [], t))
      × (escape (b'\\' ∷ t) ≡ ok (b'\\' ∷ [], t))
      × (escape (b'b' ∷ t) ≡ ok (8 ∷ [], t))
      × (escape (b'f' ∷ t) ≡ ok (12 ∷ [], t))
      × (escape (b'n' ∷ t) ≡ ok (10 ∷ [], t))
      × (escape (b'r' ∷ t) ≡ ok (13 ∷ [], t))
      × (escape (b't' ∷ t) ≡ ok (9 ∷ [], t))
unfolding escape simple_escape
escape_letters t = (refl, refl, refl, refl, refl, refl, refl)

-- where a letter is written behind the backslash
letter_round :
    (f : ℕ) (t : Bytes) (c d : ℕ)
    → escaped_byte d ≡ b'\\' ∷ c ∷ []
    → escape (c ∷ t) ≡ ok (d ∷ [], t)
    → (e : ℕ) → (e == d) ≡ true
    → ReadsBack f t e
letter_round f t c d w r e h = at_byte f t e d h (letter f t c d w r)

read_back : (f : ℕ) (t : Bytes) (c : ℕ) → ReadsBack f t c
unfolding escaped_byte
read_back f t c =
    let l = escape_letters t in
    elim (Bool-cases (c == b'"')) [
      | inl e ↦ letter_round f t b'"' b'"' refl l.0 c e
      | inr e0 ↦ elim (Bool-cases (c == b'\\')) [
        | inl e ↦ letter_round f t b'\\' b'\\' refl l.1 c e
        | inr e1 ↦ elim (Bool-cases (c == 8)) [
          | inl e ↦ letter_round f t b'b' 8 refl l.2 c e
          | inr e2 ↦ elim (Bool-cases (c == 12)) [
            | inl e ↦ letter_round f t b'f' 12 refl l.3 c e
            | inr e3 ↦ elim (Bool-cases (c == 10)) [
              | inl e ↦ letter_round f t b'n' 10 refl l.4 c e
              | inr e4 ↦ elim (Bool-cases (c == 13)) [
                | inl e ↦ letter_round f t b'r' 13 refl l.5 c e
                | inr e5 ↦ elim (Bool-cases (c == 9)) [
                  | inl e ↦ letter_round f t b't' 9 refl l.6 c e
                  | inr e6 ↦ elim (Bool-cases (ltb c 0x20)) [
                    | inl e ↦
                        rw (escaped_byte-control c e2 e3 e4 e5 e6 e)
                          (escape_round f _ t c (escape-escaped c t (ltb→lt _ _ e)))
                    | inr e ↦ plain_round f t c e0 e1 e
                  ]
                ]
              ]
            ]
          ]
        ]
      ]
    ]

quote_round : (f : ℕ) (rest : Bytes) → string_loop (suc f) (b'"' ∷ rest) ≡ ok ([], rest)
unfolding string_loop
quote_round f rest = refl

string_loop-escaped_text :
    (f : ℕ) (s rest : Bytes)
    → length s < f
    → string_loop f (escaped_text s ++ (b'"' ∷ rest)) ≡ ok (s, rest)
unfolding escaped_text
string_loop-escaped_text zero s rest h = absurd (omega arith)
string_loop-escaped_text (suc f) [] rest h = quote_round f rest
string_loop-escaped_text (suc f) (c ∷ s) rest h =
    rw
      (
        append_assoc (escaped_byte c) (escaped_text s) (b'"' ∷ rest),
        read_back f (escaped_text s ++ (b'"' ∷ rest)) c,
        string_loop-escaped_text f s rest (omega arith),
      )
      refl

length-escaped_byte : (c : ℕ) → 1 ≤ length (escaped_byte c)
unfolding escaped_byte
length-escaped_byte c = ground arith

length-escaped_text : (s : Bytes) → length s ≤ length (escaped_text s)
unfolding escaped_text
length-escaped_text [] = omega arith
length-escaped_text (c ∷ s) = omega (
  arith,
  length-append (escaped_byte c) (escaped_text s),
  length-escaped_byte c,
  length-escaped_text s,
)

-- `parse_string` reads back what `append_json_string` writes, whatever follows it.
pub parse_string-json_string :
    (s rest : Bytes) → parse_string (json_string s ++ rest) ≡ ok (s, rest)
unfolding parse_string json_string
parse_string-json_string s rest = rw (append_assoc (escaped_text s) (b'"' ∷ []) rest) (
    string_loop-escaped_text _ s rest
      (omega (arith, length-append (escaped_text s) (b'"' ∷ rest), length-escaped_text s)))
