-- ===== src/Registry/Encoding.antt =====
-- `percent_encode` against a decoder of its own.
use mcp_observatory.Prelude.{
  ℕ, ltb, ◌==◌, if◌then◌else◌, ◌+◌, ◌-◌, ◌*◌, ◌/◌, ◌%◌, ◌<◌, Bytes, All, Bool-cases, ◌≡◌, refl,
  Bool, true, false, ◌||◌, arith, [], ◌∷◌, inl, inr, ap,
}
use mcp_observatory.Registry.Address.{is_unreserved, hex, percent_encode}

-- the value of an upper-case hexadecimal digit
abbrev unhex : ℕ → ℕ
unhex c = if ltb c b'A' then c - b'0' else (c - b'A') + 10

-- The text that an encoded text stands for.
unfoldable pub percent_decode : Bytes → Bytes
percent_decode [] = []
percent_decode (c ∷ []) = c ∷ []
percent_decode (c ∷ a ∷ []) = c ∷ percent_decode (a ∷ [])
percent_decode (c ∷ a ∷ b ∷ s) =
    if c == b'%'
    then (unhex a * 16 + unhex b) ∷ percent_decode s
    else c ∷ percent_decode (a ∷ b ∷ s)

percent_decode-nil : percent_decode [] ≡ []
unfolding percent_decode
percent_decode-nil = refl

percent_decode-plain :
    (c : ℕ) (s : Bytes) → (c == b'%') ≡ false → percent_decode (c ∷ s) ≡ c ∷ percent_decode s
unfolding percent_decode
percent_decode-plain c [] h = refl
percent_decode-plain c (a ∷ []) h = refl
percent_decode-plain c (a ∷ b ∷ s) h = rw h refl

percent_decode-escape :
    (a b : ℕ) (s : Bytes)
    → percent_decode (b'%' ∷ a ∷ b ∷ s) ≡ (unhex a * 16 + unhex b) ∷ percent_decode s
unfolding percent_decode
percent_decode-escape a b s = refl

unhex-hex : (n : ℕ) → n < 16 → unhex (hex n) ≡ n
unhex-hex n h = ground arith

unreserved-plain : (c : ℕ) → is_unreserved c ≡ true → (c == b'%') ≡ false
unfolding is_unreserved
unreserved-plain c h = ground arith

byte_halves : (c : ℕ) → c < 256 → (c / 16 < 16) × (c % 16 < 16) × (c / 16 * 16 + c % 16 ≡ c)
byte_halves c h = omega arith

escaped : (c : ℕ) → c < 256 → unhex (hex (c / 16)) * 16 + unhex (hex (c % 16)) ≡ c
escaped c h = let (p, q, e) = byte_halves c h in rw (unhex-hex (c / 16) p, unhex-hex (c % 16) q) e

-- Decoding what `percent_encode` made of a byte string gives the string back.
pub percent_decode-percent_encode :
    (s : Bytes) → All (λ c. c < 256) s → percent_decode (percent_encode s) ≡ s
unfolding percent_encode
percent_decode-percent_encode [] h = percent_decode-nil
percent_decode-percent_encode (c ∷ s) (p, h) = elim (Bool-cases (is_unreserved c)) [
  | inl u ↦
      rw (u, percent_decode-plain c (percent_encode s) (unreserved-plain c u))
        (ap (◌∷◌ c) (percent_decode-percent_encode s h))
  | inr e ↦
      rw (e, percent_decode-escape (hex (c / 16)) (hex (c % 16)) (percent_encode s), escaped c p)
        (ap (◌∷◌ c) (percent_decode-percent_encode s h))
]

-- whether a byte may stand in an encoded text
abbrev is_encoded : ℕ → Bool
is_encoded c = is_unreserved c || c == b'%'

hex-unreserved : (n : ℕ) → n < 16 → is_unreserved (hex n) ≡ true
unfolding is_unreserved
hex-unreserved n h = ground arith

encoded-hex : (n : ℕ) → n < 16 → is_encoded (hex n) ≡ true
encoded-hex n h = rw (hex-unreserved n h) refl

percent_byte : is_encoded b'%' ≡ true
unfolding is_unreserved
percent_byte = refl

-- An encoded byte string has no byte that could end or divide a query: letters, digits, `-`, `.`,
-- `_`, `~` and `%` are all that it contains.
pub percent_encode-encoded :
    (s : Bytes) → All (λ c. c < 256) s → All (λ c. is_encoded c ≡ true) (percent_encode s)
unfolding percent_encode
percent_encode-encoded [] h = tt
percent_encode-encoded (c ∷ s) (p, h) = elim (Bool-cases (is_unreserved c)) [
  | inl u ↦ rw u (rw u refl, percent_encode-encoded s h)
  | inr e ↦ rw e (
    percent_byte,
    (
      encoded-hex (c / 16) (byte_halves c p).0,
      (encoded-hex (c % 16) (byte_halves c p).1, percent_encode-encoded s h),
    ),
  )
]
