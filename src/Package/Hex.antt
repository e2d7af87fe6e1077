-- ===== src/Package/Hex.antt =====
-- Hexadecimal text, as OpenSSL prints a digest and as a package index publishes it, read and
-- written without the code's own helpers.
use mcp_observatory.Prelude.{
  Bytes, ltb, ◌==◌, if◌then◌else◌, within, ℕ, Bool-cases, &&-eq-true, length, all, equal, ◌+◌, ◌-◌,
  ◌*◌, ◌/◌, ◌%◌, ◌<◌, ◌≡◌, refl, ap, ◌∙◌, inl, inr, Bool, true, false, ◌&&◌, Option, none, some, [],
  ◌∷◌, map, arith,
}
use mcp_observatory.Package.Integrity.{is_hex, lower_hex_digit, is_lower_hex}
use mcp_observatory.Package.RoundTrip.{AreBytes}

-- a digit, in lower case
abbrev low : ℕ → ℕ
low n = if ltb n 10 then b'0' + n else b'a' + (n - 10)

-- the two digits of each byte, in lower case
abbrev pub hex_text : Bytes → Bytes
hex_text [] = []
hex_text (b ∷ bs) = low (b / 16) ∷ low (b % 16) ∷ hex_text bs

-- what a digit stands for, in upper or lower case
abbrev pub hex_value : ℕ → Option ℕ
hex_value c =
    if within b'0' b'9' c
    then some (c - b'0')
    else if within b'a' b'f' c
    then some (10 + (c - b'a'))
    else if within b'A' b'F' c
    then some (10 + (c - b'A'))
    else none

abbrev pub byte_of : Option ℕ → Option ℕ → Option Bytes → Option Bytes
byte_of (some v) (some w) (some bs) = some ((v * 16 + w) ∷ bs)
byte_of _ _ _ = none

-- the bytes that pairs of digits stand for; nothing if there is anything else
abbrev pub decode_hex : Bytes → Option Bytes
decode_hex [] = some []
decode_hex (c ∷ []) = none
decode_hex (c ∷ d ∷ s) = byte_of (hex_value c) (hex_value d) (decode_hex s)

-- the number of a digit
abbrev value : ℕ → ℕ
value c =
    if within b'0' b'9' c
    then c - b'0'
    else if within b'a' b'f' c
    then 10 + (c - b'a')
    else 10 + (c - b'A')

hex_value-digit : (c : ℕ) → is_hex c ≡ true → hex_value c ≡ some (value c)
hex_value-digit c h = elim (Bool-cases (within b'0' b'9' c)) [
  | inl a ↦ rw a refl
  | inr a ↦ elim (Bool-cases (within b'a' b'f' c)) [
    | inl b ↦ rw (a, b) refl
    | inr b ↦ rw (a, b, upper a b) refl
  ]
]
  where
    upper : within b'0' b'9' c ≡ false → within b'a' b'f' c ≡ false → within b'A' b'F' c ≡ true
    upper a b = ground arith

hex_value-other : (c : ℕ) → is_hex c ≡ false → hex_value c ≡ none
hex_value-other c h = rw (decimal_digit, lower_digit, upper_digit) refl
  where
    decimal_digit : within b'0' b'9' c ≡ false
    decimal_digit = ground arith

    lower_digit : within b'a' b'f' c ≡ false
    lower_digit = ground arith

    upper_digit : within b'A' b'F' c ≡ false
    upper_digit = ground arith

value-lt : (c : ℕ) → is_hex c ≡ true → value c < 16
value-lt c h = ground arith

same_digit : (n c : ℕ) → n < 16 → is_hex c ≡ true → (low n == lower_hex_digit c) ≡ (n == value c)
same_digit n c l h = ground arith

same_byte : (b v w : ℕ) → w < 16 → ((b / 16 == v) && (b % 16 == w)) ≡ (v * 16 + w == b)
same_byte b v w l = ground arith

and_assoc : (x y z : Bool) → (x && (y && z)) ≡ ((x && y) && z)
and_assoc x y z = ground arith

-- the two digits of a byte, compared with what is published
same_pair :
    (b c d : ℕ) (r : Bool)
    → b < 256
    → is_hex c ≡ true
    → is_hex d ≡ true
    → (low (b / 16) == lower_hex_digit c && (low (b % 16) == lower_hex_digit d && r))
      ≡ ((value c * 16 + value d == b) && r)
same_pair b c d r l h k =
    and_assoc _ _ r
    ∙ ap (λ x. x && r)
        (rw (same_digit (b / 16) c (omega arith) h, same_digit (b % 16) d (omega arith) k)
          (same_byte b (value c) (value d) (value-lt d k)))

-- Text of hexadecimal digits is the text of some bytes, if upper case is read as lower case.
pub decode_hex-digits :
    (s digest : Bytes)
    → all is_hex s ≡ true
    → length s ≡ length digest + length digest
    → AreBytes digest
    → (d : Bytes) × (decode_hex s ≡ some d)
      × (equal (hex_text digest) (map lower_hex_digit s) ≡ equal d digest)
unfolding equal
decode_hex-digits [] [] h l a = ([], refl, refl)
decode_hex-digits [] (b ∷ bs) h l a = absurd (omega arith)
decode_hex-digits (c ∷ []) [] h l a = absurd (omega arith)
decode_hex-digits (c ∷ []) (b ∷ bs) h l a = absurd (omega arith)
decode_hex-digits (c ∷ d ∷ s) [] h l a = absurd (omega arith)
decode_hex-digits (c ∷ d ∷ s) (b ∷ bs) h l (p, a) =
    let (x, y) = &&-eq-true _ _ h in
    let (z, t) = &&-eq-true _ _ y in
    let (bytes, e, same) = decode_hex-digits s bs t (omega arith) a in
    (
      (value c * 16 + value d) ∷ bytes,
      rw (hex_value-digit c x, hex_value-digit d z, e) refl,
      ap (λ r. low (b / 16) == lower_hex_digit c && (low (b % 16) == lower_hex_digit d && r)) same
          ∙ same_pair b c d (equal bytes bs) p x z,
    )

byte_of-none : (v w : Option ℕ) → byte_of v w none ≡ none
byte_of-none none w = refl
byte_of-none (some v) none = refl
byte_of-none (some v) (some w) = refl

-- Text with anything else in it is the text of no bytes.
pub decode_hex-other : (s : Bytes) → all is_hex s ≡ false → decode_hex s ≡ none
decode_hex-other [] h = cc
decode_hex-other (c ∷ []) h = refl
decode_hex-other (c ∷ d ∷ s) h = elim (Bool-cases (is_hex c)) [
  | inr k ↦ rw (hex_value-other c k) refl
  | inl k ↦ elim (Bool-cases (is_hex d)) [
    | inr j ↦ rw (hex_value-digit c k, hex_value-other d j) refl
    | inl j ↦ rw (decode_hex-other s (rest k j)) (byte_of-none (hex_value c) (hex_value d))
  ]
]
  where
    rest : is_hex c ≡ true → is_hex d ≡ true → all is_hex s ≡ false
    rest k j = ground arith

pub length-hex_text : (bs : Bytes) → length (hex_text bs) ≡ length bs + length bs
length-hex_text [] = refl
length-hex_text (b ∷ bs) = omega (arith, length-hex_text bs)

lower_digit : (n : ℕ) → n < 16 → is_lower_hex (low n) ≡ true
lower_digit n h = ground arith

pub hex_text-digits : (bs : Bytes) → AreBytes bs → all is_lower_hex (hex_text bs) ≡ true
hex_text-digits [] a = refl
hex_text-digits (b ∷ bs) (p, a) =
    rw (lower_digit (b / 16) (omega arith), lower_digit (b % 16) (omega arith))
      (hex_text-digits bs a)
