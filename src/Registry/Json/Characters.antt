-- ===== src/Registry/Json/Characters.antt =====
-- `append_utf8` writes a UTF-8 character, and `hex4` reads a number of 16 bits.
use mcp_observatory.Prelude.{
  Bytes, ltb, within, ℕ, ◌+◌, ◌/◌, ◌%◌, ◌≤◌, ◌<◌, ◌≡◌, sym, ap, ◌∙◌, true, false, some, [], ◌∷◌,
  arith, leb, Bool-cases, leb→le, zero, suc, ◌*◌, inl, inr, Option, none, ok, err, Ensures, holds,
  rejected, String, OnSome, OnSome-weaken,
}
use mcp_observatory.Scan.Tail.{IsTail, here, there}
use mcp_observatory.Registry.Json.Encoding.{next_byte-ascii, IsWhole}
use mcp_observatory.Registry.Json.Utf8.{
  ready, first_byte, is_overlong, next_byte, utf8_from, utf8_bytes,
}
use mcp_observatory.Registry.Json.Strings.{hex_digit, hex_digits, hex4}

pub IsWhole-tail : (c : ℕ) (s : Bytes) → ltb c 0x80 ≡ true → IsWhole (c ∷ s) → IsWhole s
unfolding utf8_from
IsWhole-tail c s h w = sym (ap (λ u. utf8_from u s) (next_byte-ascii c h)) ∙ w

-- a scalar value of Unicode
abbrev pub IsScalar : ℕ → Type 0
IsScalar value = (value ≤ 0x10ffff) × (within 0xd800 0xdfff value ≡ false)

one_byte : (v : ℕ) → v ≤ 0x7f → utf8_from (some ready) (v ∷ []) ≡ some ready
unfolding utf8_from next_byte first_byte is_overlong
one_byte v h = ground arith

two_bytes :
    (v : ℕ)
    → 0x7f < v
    → v ≤ 0x7ff
    → utf8_from (some ready) ((0xc0 + v / 64) ∷ (0x80 + v % 64) ∷ []) ≡ some ready
unfolding utf8_from next_byte first_byte is_overlong
two_bytes v g h = ground arith

three_bytes :
    (v : ℕ)
    → 0x7ff < v
    → v ≤ 0xffff
    → within 0xd800 0xdfff v ≡ false
    → utf8_from (some ready) ((0xe0 + v / 4096) ∷ (0x80 + v / 64 % 64) ∷ (0x80 + v % 64) ∷ [])
      ≡ some ready
unfolding utf8_from next_byte first_byte is_overlong
three_bytes v g h k = ground arith

four_bytes :
    (v : ℕ)
    → 0xffff < v
    → v ≤ 0x10ffff
    → utf8_from
        (some ready)
        ((0xf0 + v / 262144) ∷ (0x80 + v / 4096 % 64) ∷ (0x80 + v / 64 % 64) ∷ (0x80 + v % 64) ∷ [])
      ≡ some ready
unfolding utf8_from next_byte first_byte is_overlong
four_bytes v g h = ground arith

-- the character that is appended for a scalar value is UTF-8
pub utf8_bytes-IsWhole : (v : ℕ) → IsScalar v → IsWhole (utf8_bytes v)
unfolding utf8_bytes
utf8_bytes-IsWhole v (h, k) = elim (Bool-cases (leb v 0x7f)) [
  | inl a ↦ rw a (one_byte v (leb→le _ _ a))
  | inr a ↦ rw a (elim (Bool-cases (leb v 0x7ff)) [
    | inl b ↦ rw b (two_bytes v (ground arith) (ground arith))
    | inr b ↦ rw b (elim (Bool-cases (leb v 0xffff)) [
      | inl c ↦ rw c (three_bytes v (ground arith) (ground arith) k)
      | inr c ↦ rw c (four_bytes v (ground arith) h)
    ])
  ])
]

hex_digit-OnSome : (c : ℕ) → OnSome (λ d. (d < 16) × (ltb c 0x80 ≡ true)) (hex_digit c)
unfolding hex_digit
hex_digit-OnSome c = ground arith

-- the bound on a value behind so many more digits
abbrev below : ℕ → ℕ → ℕ
below zero w = w
below (suc left) w = below left (16 * w)

-- `IsRest`, and the rest begins with a character
abbrev pub Leaves : Bytes → Bytes → Type 0
Leaves r s = IsTail r s × IsWhole r

hex_digits-OnSome :
    (left value w : ℕ) (s : Bytes)
    → value < w
    → IsWhole s
    → OnSome (λ p. (p.0 < below left w) × Leaves p.1 s) (hex_digits left value s)
unfolding hex_digits
hex_digits-OnSome zero value w s h g = (h, (here, g))
hex_digits-OnSome (suc left) value w [] h g = tt
hex_digits-OnSome (suc left) value w (c ∷ s) h g =
    by_digit (hex_digit c) (hex_digit-OnSome c) λ d k a.
      hex_digits-OnSome left (value * 16 + d) (16 * w) s (omega arith) (IsWhole-tail c s a g)
  where
    by_digit :
        (o : Option ℕ)
        → OnSome (λ d. (d < 16) × (ltb c 0x80 ≡ true)) o
        → ((d : ℕ)
            → d < 16
            → ltb c 0x80 ≡ true
            → OnSome
                (λ p. (p.0 < below left (16 * w)) × Leaves p.1 s)
                (hex_digits left (value * 16 + d) s))
        → OnSome
            (λ p. (p.0 < below (suc left) w) × Leaves p.1 (c ∷ s))
            (elim o [ none ↦ none | some d ↦ hex_digits left (value * 16 + d) s ])
    by_digit none k f = tt
    by_digit (some d) (k, a) f =
        OnSome-weaken (hex_digits left (value * 16 + d) s) (λ p (b, (t, u)). (b, (there t, u)))
          (f d k a)

pub hex4-Ensures :
    (message : String) (s : Bytes)
    → IsWhole s
    → Ensures (λ p. (p.0 ≤ 0xffff) × Leaves p.1 s) (hex4 message s)
unfolding hex4
hex4-Ensures message s g = by_result (hex_digits 4 0 s) (hex_digits-OnSome 4 0 1 s (omega arith) g)
  where
    by_result :
        (o : Option (ℕ × Bytes))
        → OnSome (λ p. (p.0 < 65536) × Leaves p.1 s) o
        → Ensures
            (λ p. (p.0 ≤ 0xffff) × Leaves p.1 s)
            (elim o [ none ↦ err message | some p ↦ ok p ])
    by_result none h = rejected
    by_result (some p) (h, l) = holds (omega arith, l)
