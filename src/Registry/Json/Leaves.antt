-- ===== src/Registry/Json/Leaves.antt =====
-- What a number and a container's elements leave of a text, and what they add to a value.
use mcp_observatory.Prelude.{
  Bytes, ltb, ◌==◌, within, Bool-cases, Ensures, holds, rejected, Ensures-bind, Ensures-branch, ℕ,
  String, ◌≡◌, inl, inr, true, ◌||◌, [], ◌∷◌, arith,
}
use mcp_observatory.Scan.{span_digits, is_digit, skip_space, is_space}
use mcp_observatory.Scan.Tail.{here, there, IsRest, behind, IsTail-trans, IsRest-left, IsRest-right}
use mcp_observatory.Registry.Json.Characters.{IsWhole-tail, Leaves}
use mcp_observatory.Registry.Json.Encoding.{IsWhole}
use mcp_observatory.Registry.Json.Numbers.{
  number_sign, number_integer, digits_behind, number_fraction, exponent_sign, number_exponent,
  parse_number,
}
use mcp_observatory.Registry.Json.Parser.{json_dialect, skip_json_space}

-- a byte, and whole text behind it
abbrev pub Drops : Bytes → Bytes → Type 0
Drops r s = IsRest r s × IsWhole r

pub Drops-one : (c : ℕ) (s : Bytes) → ltb c 0x80 ≡ true → IsWhole (c ∷ s) → Drops s (c ∷ s)
Drops-one c s h g = (behind here, IsWhole-tail c s h g)

pub Leaves-more : (c : ℕ) (r s : Bytes) → Leaves r s → Leaves r (c ∷ s)
Leaves-more c r s (t, w) = (there t, w)

pub skip_space-Leaves : (s : Bytes) → IsWhole s → Leaves (skip_json_space s) s
unfolding skip_space
skip_space-Leaves [] g = (here, g)
skip_space-Leaves (c ∷ s) g = elim (Bool-cases (is_space json_dialect c)) [
  | inl h ↦
      rw (h, skip_space)
        (Leaves-more c _ s (skip_space-Leaves s (IsWhole-tail c s (space_ascii c h) g)))
  | inr h ↦ rw (h, skip_space) (here, g)
]
  where
    space_ascii : (c : ℕ) → is_space json_dialect c ≡ true → ltb c 0x80 ≡ true
    space_ascii c h = ground (arith, is_space)

span_digits-Leaves : (s : Bytes) → IsWhole s → Leaves (span_digits s).1 s
unfolding span_digits
span_digits-Leaves [] g = (here, g)
span_digits-Leaves (c ∷ s) g = elim (Bool-cases (is_digit c)) [
  | inl h ↦
      rw (h, span_digits)
        (Leaves-more c _ s (span_digits-Leaves s (IsWhole-tail c s (ground arith) g)))
  | inr h ↦ rw (h, span_digits) (here, g)
]

number_sign-Leaves : (s : Bytes) → IsWhole s → Leaves (number_sign s).1 s
unfolding number_sign
number_sign-Leaves [] g = (here, g)
number_sign-Leaves (c ∷ s) g = elim (Bool-cases (c == b'-')) [
  | inl h ↦ rw (h, number_sign) (there here, IsWhole-tail c s (ground arith) g)
  | inr h ↦ rw (h, number_sign) (here, g)
]

exponent_sign-Leaves : (s : Bytes) → IsWhole s → Leaves (exponent_sign s).1 s
unfolding exponent_sign
exponent_sign-Leaves [] g = (here, g)
exponent_sign-Leaves (c ∷ s) g = elim (Bool-cases (c == b'+' || c == b'-')) [
  | inl h ↦ rw (h, exponent_sign) (there here, IsWhole-tail c s (ground arith) g)
  | inr h ↦ rw (h, exponent_sign) (here, g)
]

digits-Drops :
    (c : ℕ) (s : Bytes)
    → is_digit c ≡ true
    → IsWhole (c ∷ s)
    → Drops (span_digits (c ∷ s)).1 (c ∷ s)
unfolding span_digits
digits-Drops c s h g =
    let (t, w) = span_digits-Leaves s (IsWhole-tail c s (ground arith) g) in
    rw (h, span_digits) (behind t, w)

number_integer-Drops : (s : Bytes) → IsWhole s → Ensures (λ p. Drops p.1 s) (number_integer s)
unfolding number_integer
number_integer-Drops [] g = rejected
number_integer-Drops (c ∷ s) g =
    Ensures-branch (c == b'0') (λ h. holds (Drops-one c s (ground arith) g))
      (λ _.
        Ensures-branch (within b'1' b'9' c) (λ h. holds (digits-Drops c s (ground arith) g))
          (λ _. rejected))

digits_behind-Leaves :
    (message : String) (mark : Bytes) (p : Bytes × Bytes) (s : Bytes)
    → Leaves p.1 s
    → Ensures (λ q. Leaves q.1 s) (digits_behind message mark p)
unfolding digits_behind
digits_behind-Leaves message mark ([], r) s l = rejected
digits_behind-Leaves message mark (d ∷ ds, r) s l = holds l

number_fraction-Leaves : (s : Bytes) → IsWhole s → Ensures (λ p. Leaves p.1 s) (number_fraction s)
unfolding number_fraction
number_fraction-Leaves [] g = holds (here, g)
number_fraction-Leaves (c ∷ s) g =
    Ensures-branch (c == b'.')
      (λ h.
        digits_behind-Leaves _ (c ∷ []) (span_digits s) (c ∷ s)
          (Leaves-more c _ s (span_digits-Leaves s (IsWhole-tail c s (ground arith) g))))
      (λ _. holds (here, g))

number_exponent-Leaves : (s : Bytes) → IsWhole s → Ensures (λ p. Leaves p.1 s) (number_exponent s)
unfolding number_exponent
number_exponent-Leaves [] g = holds (here, g)
number_exponent-Leaves (c ∷ s) g =
    Ensures-branch (c == b'e' || c == b'E')
      (λ h.
        let (t, w) = exponent_sign-Leaves s (IsWhole-tail c s (ground arith) g) in
        let (u, x) = span_digits-Leaves (exponent_sign s).1 w in
        digits_behind-Leaves _ (c ∷ (exponent_sign s).0) (span_digits (exponent_sign s).1) (c ∷ s)
          (there (IsTail-trans u t), x))
      (λ _. holds (here, g))

pub parse_number-Drops : (s : Bytes) → IsWhole s → Ensures (λ p. Drops p.1 s) (parse_number s)
unfolding parse_number
parse_number-Drops s g =
    let (t, g') = number_sign-Leaves s g in
    Ensures-bind (number_integer-Drops (number_sign s).1 g') λ w (u, gw).
      Ensures-bind (number_fraction-Leaves w.1 gw) λ p (v, gp).
        Ensures-bind (number_exponent-Leaves p.1 gp)
          λ q (x, gq). holds (IsRest-left x (IsRest-left v (IsRest-right u t)), gq)
