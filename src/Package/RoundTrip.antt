-- ===== src/Package/RoundTrip.antt =====
-- `base64_decode` reads what RFC 4648 writes.
use mcp_observatory.Prelude.{
  Bytes, ltb, ◌==◌, if◌then◌else◌, ok, ℕ, ◌+◌, ◌-◌, ◌*◌, ◌/◌, ◌%◌, ◌<◌, ◌≡◌, true, false, [], ◌∷◌,
  arith, length, All, refl, Bool, ◌++◌,
}
use mcp_observatory.Package.Base64.{
  decode_char, padded_char, group_bytes, decode_group, decode_groups, base64_decode,
}

-- the character of six bits
abbrev pub encode_char : ℕ → ℕ
encode_char n =
    if ltb n 26
    then b'A' + n
    else if ltb n 52
    then b'a' + (n - 26)
    else if ltb n 62
    then b'0' + (n - 52)
    else if n == 62
    then b'+'
    else b'/'

-- The encoding of RFC 4648, with padding: a description that the source does not contain.
unfoldable pub base64_encode : Bytes → Bytes
base64_encode [] = []
base64_encode (a ∷ []) = encode_char (a / 4) ∷ encode_char (a % 4 * 16) ∷ b'=' ∷ b'=' ∷ []
base64_encode (a ∷ b ∷ []) =
    encode_char (a / 4) ∷ encode_char (a % 4 * 16 + b / 16) ∷ encode_char (b % 16 * 4) ∷ b'=' ∷ []
base64_encode (a ∷ b ∷ c ∷ s) =
    encode_char (a / 4)
    ∷ encode_char (a % 4 * 16 + b / 16)
    ∷ encode_char (b % 16 * 4 + c / 64)
    ∷ encode_char (c % 64)
    ∷ base64_encode s

decode-encode_char : (n : ℕ) → n < 64 → decode_char (encode_char n) ≡ ok n
unfolding decode_char
decode-encode_char n h = ground arith

encode_char-not_padding : (n : ℕ) → n < 64 → (encode_char n == b'=') ≡ false
encode_char-not_padding n h = ground arith

padded-encode_char : (n : ℕ) → n < 64 → padded_char (encode_char n) ≡ ok n
unfolding padded_char
padded-encode_char n h = rw (encode_char-not_padding n h) (decode-encode_char n h)

-- the three bytes of a number of 24 bits
group_bytes-digits :
    (a b c : ℕ) (second third : Bool)
    → a < 256
    → b < 256
    → c < 256
    → group_bytes second third (a * 65536 + b * 256 + c)
      ≡ a ∷ ((if second then b ∷ [] else []) ++ (if third then c ∷ [] else []))
unfolding group_bytes
group_bytes-digits a b c second third h k l = rw (first, middle, last) refl
  where
    first : (a * 65536 + b * 256 + c) / 65536 % 256 ≡ a
    first = omega arith

    middle : (a * 65536 + b * 256 + c) / 256 % 256 ≡ b
    middle = omega arith

    last : (a * 65536 + b * 256 + c) % 256 ≡ c
    last = omega arith

-- the 24 bits of a group, from its bytes
joins-three :
    (a b c : ℕ)
    → a / 4 * 262144 + (a % 4 * 16 + b / 16) * 4096 + (b % 16 * 4 + c / 64) * 64 + c % 64
      ≡ a * 65536 + b * 256 + c
joins-three a b c = omega arith

joins-two :
    (a b : ℕ)
    → a / 4 * 262144 + (a % 4 * 16 + b / 16) * 4096 + b % 16 * 4 * 64 + 0 ≡ a * 65536 + b * 256 + 0
joins-two a b = omega arith

joins-one : (a : ℕ) → a / 4 * 262144 + a % 4 * 16 * 4096 + 0 * 64 + 0 ≡ a * 65536 + 0 * 256 + 0
joins-one a = omega arith

decode_group-three :
    (a b c : ℕ)
    → a < 256
    → b < 256
    → c < 256
    → decode_group
        (encode_char (a / 4))
        (encode_char (a % 4 * 16 + b / 16))
        (encode_char (b % 16 * 4 + c / 64))
        (encode_char (c % 64))
      ≡ ok (a ∷ b ∷ c ∷ [])
unfolding decode_group
decode_group-three a b c h k l =
    rw
      (
        decode-encode_char (a / 4) (omega arith),
        decode-encode_char (a % 4 * 16 + b / 16) (omega arith),
        padded-encode_char (b % 16 * 4 + c / 64) (omega arith),
        padded-encode_char (c % 64) (omega arith),
        encode_char-not_padding (b % 16 * 4 + c / 64) (omega arith),
        encode_char-not_padding (c % 64) (omega arith),
        joins-three a b c,
        group_bytes-digits a b c true true h k l,
      )
      refl

decode_group-two :
    (a b : ℕ)
    → a < 256
    → b < 256
    → decode_group
        (encode_char (a / 4))
        (encode_char (a % 4 * 16 + b / 16))
        (encode_char (b % 16 * 4))
        b'='
      ≡ ok (a ∷ b ∷ [])
unfolding decode_group padded_char
decode_group-two a b h k =
    rw
      (
        decode-encode_char (a / 4) (omega arith),
        decode-encode_char (a % 4 * 16 + b / 16) (omega arith),
        encode_char-not_padding (b % 16 * 4) (omega arith),
        decode-encode_char (b % 16 * 4) (omega arith),
        joins-two a b,
        group_bytes-digits a b 0 true false h k (omega arith),
      )
      refl

decode_group-one :
    (a : ℕ)
    → a < 256
    → decode_group (encode_char (a / 4)) (encode_char (a % 4 * 16)) b'=' b'=' ≡ ok (a ∷ [])
unfolding decode_group padded_char
decode_group-one a h =
    rw
      (
        decode-encode_char (a / 4) (omega arith),
        decode-encode_char (a % 4 * 16) (omega arith),
        joins-one a,
        group_bytes-digits a 0 0 false false h (omega arith) (omega arith),
      )
      refl

-- the bytes of a `std::string`
abbrev pub AreBytes : Bytes → Type 0
AreBytes s = All (λ c. c < 256) s

decode_groups-base64_encode : (s : Bytes) → AreBytes s → decode_groups (base64_encode s) ≡ ok s
unfolding base64_encode decode_groups
decode_groups-base64_encode [] h = refl
decode_groups-base64_encode (a ∷ []) (h, _) = rw (decode_group-one a h) refl
decode_groups-base64_encode (a ∷ b ∷ []) (h, (k, _)) = rw (decode_group-two a b h k) refl
decode_groups-base64_encode (a ∷ b ∷ c ∷ s) (h, (k, (l, r))) =
    rw (decode_group-three a b c h k l, decode_groups-base64_encode s r) refl

length-base64_encode : (s : Bytes) → length (base64_encode s) % 4 ≡ 0
unfolding base64_encode
length-base64_encode [] = omega arith
length-base64_encode (a ∷ []) = omega arith
length-base64_encode (a ∷ b ∷ []) = omega arith
length-base64_encode (a ∷ b ∷ c ∷ s) = omega (arith, length-base64_encode s)

-- What the encoding of RFC 4648 makes of bytes is decoded to these bytes.
pub base64_decode-base64_encode : (s : Bytes) → AreBytes s → base64_decode (base64_encode s) ≡ ok s
unfolding base64_decode
base64_decode-base64_encode s h = rw (length-base64_encode s) (decode_groups-base64_encode s h)
