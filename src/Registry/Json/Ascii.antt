-- ===== src/Registry/Json/Ascii.antt =====
-- The text of a number is ASCII.
use mcp_observatory.Prelude.{
  Bytes, ltb, ◌==◌, within, Bool-cases, ok, Ensures, holds, rejected, Ensures-ok, Ensures-bind, ℕ,
  String, ◌≡◌, inl, inr, true, ◌||◌, [], ◌∷◌, ◌++◌, arith,
}
use mcp_observatory.Scan.{span_digits, is_digit}
use mcp_observatory.Registry.Json.Encoding.{IsAscii}
use mcp_observatory.Registry.Json.Numbers.{
  number_sign, number_integer, digits_behind, number_fraction, exponent_sign, number_exponent,
  parse_number,
}

abbrev Starts : Bytes × Bytes → Type 0
Starts p = IsAscii p.0

IsAscii-append : (s t : Bytes) → IsAscii s → IsAscii t → IsAscii (s ++ t)
IsAscii-append [] t a b = b
IsAscii-append (c ∷ s) t (h, a) b = (h, IsAscii-append s t a b)

span_digits-IsAscii : (s : Bytes) → IsAscii (span_digits s).0
unfolding span_digits
span_digits-IsAscii [] = tt
span_digits-IsAscii (c ∷ s) = elim (Bool-cases (is_digit c)) [
  | inl d ↦ rw (d, span_digits) (digit_ascii c d, span_digits-IsAscii s)
  | inr d ↦ rw (d, span_digits) tt
]
  where
    digit_ascii : (c : ℕ) → is_digit c ≡ true → ltb c 0x80 ≡ true
    digit_ascii c h = ground arith

number_sign-IsAscii : (s : Bytes) → IsAscii (number_sign s).0
unfolding number_sign
number_sign-IsAscii [] = tt
number_sign-IsAscii (c ∷ s) = ground arith

number_integer-ascii : (s : Bytes) → Ensures Starts (number_integer s)
unfolding number_integer
number_integer-ascii [] = rejected
number_integer-ascii (c ∷ s) = elim (Bool-cases (c == b'0')) [
  | inl z ↦ rw z (holds (zero_ascii c z, tt))
  | inr z ↦ rw z (elim (Bool-cases (within b'1' b'9' c)) [
    | inl d ↦ rw d (holds (span_digits-IsAscii (c ∷ s)))
    | inr d ↦ rw d rejected
  ])
]
  where
    zero_ascii : (c : ℕ) → (c == b'0') ≡ true → ltb c 0x80 ≡ true
    zero_ascii c h = ground arith

digits_behind-ascii :
    (message : String) (mark : Bytes) (p : Bytes × Bytes)
    → IsAscii mark
    → IsAscii p.0
    → Ensures Starts (digits_behind message mark p)
unfolding digits_behind
digits_behind-ascii message mark ([], r) a b = rejected
digits_behind-ascii message mark (d ∷ ds, r) a b = holds (IsAscii-append mark (d ∷ ds) a b)

number_fraction-ascii : (s : Bytes) → Ensures Starts (number_fraction s)
unfolding number_fraction
number_fraction-ascii [] = holds tt
number_fraction-ascii (c ∷ s) = elim (Bool-cases (c == b'.')) [
  | inl z ↦
      rw z
        (digits_behind-ascii _ (c ∷ []) (span_digits s) (dot_ascii c z, tt) (span_digits-IsAscii s))
  | inr z ↦ rw z (holds tt)
]
  where
    dot_ascii : (c : ℕ) → (c == b'.') ≡ true → ltb c 0x80 ≡ true
    dot_ascii c h = ground arith

exponent_sign-IsAscii : (s : Bytes) → IsAscii (exponent_sign s).0
unfolding exponent_sign
exponent_sign-IsAscii [] = tt
exponent_sign-IsAscii (c ∷ s) = ground arith

number_exponent-ascii : (s : Bytes) → Ensures Starts (number_exponent s)
unfolding number_exponent
number_exponent-ascii [] = holds tt
number_exponent-ascii (c ∷ s) = elim (Bool-cases (c == b'e' || c == b'E')) [
  | inl z ↦ rw z (
      digits_behind-ascii _ (c ∷ (exponent_sign s).0) (span_digits (exponent_sign s).1)
        (mark_ascii c z, exponent_sign-IsAscii s) (span_digits-IsAscii (exponent_sign s).1))
  | inr z ↦ rw z (holds tt)
]
  where
    mark_ascii : (c : ℕ) → (c == b'e' || c == b'E') ≡ true → ltb c 0x80 ≡ true
    mark_ascii c h = ground arith

parse_number-ascii : (s : Bytes) → Ensures Starts (parse_number s)
unfolding parse_number
parse_number-ascii s = Ensures-bind (number_integer-ascii (number_sign s).1) λ w hw.
    Ensures-bind (number_fraction-ascii w.1) λ p hp.
      Ensures-bind (number_exponent-ascii p.1) λ q hq. holds (
        IsAscii-append (number_sign s).0 (w.0 ++ (p.0 ++ q.0)) (number_sign-IsAscii s)
          (IsAscii-append w.0 (p.0 ++ q.0) hw (IsAscii-append p.0 q.0 hp hq)))

pub number-IsAscii : (s : Bytes) → parse_number s ≡ ok (s, []) → IsAscii s
number-IsAscii s h = Ensures-ok (parse_number-ascii s) h
