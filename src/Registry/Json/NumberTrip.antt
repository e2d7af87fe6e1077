-- ===== src/Registry/Json/NumberTrip.antt =====
-- `parse_number` reads the same number with other text behind it.
use mcp_observatory.Prelude.{
  ◌==◌, Bytes, Outcome, ok, Bool, true, ◌||◌, [], ◌∷◌, ◌++◌, ◌≡◌, Bool-cases, err, out_of_fuel,
  refl, inl, inr, arith, within, String, ◌>>=◌,
}
use mcp_observatory.Scan.{span_digits, is_digit}
use mcp_observatory.Registry.Json.Numbers.{
  number_sign, number_fraction, exponent_sign, number_exponent, number_integer, digits_behind,
  parse_number,
}

-- what may stand behind a value: nothing, a comma, or the end of a container
abbrev pub stops : Bytes → Bool
stops [] = true
stops (c ∷ s) = c == b',' || c == b']' || c == b'}'

-- what `part` says of a text, it says with `rest` behind it
abbrev Extends : Bytes → (Bytes → Outcome (Bytes × Bytes)) → Bytes → Type 0
Extends rest part s = (t r : Bytes) → part s ≡ ok (t, r) → part (s ++ rest) ≡ ok (t, r ++ rest)

span_digits-stops : (rest : Bytes) → stops rest ≡ true → span_digits rest ≡ ([], rest)
unfolding span_digits
span_digits-stops [] h = refl
span_digits-stops (c ∷ s) h = ground arith

exponent_sign-stops : (rest : Bytes) → stops rest ≡ true → exponent_sign rest ≡ ([], rest)
unfolding exponent_sign
exponent_sign-stops [] h = refl
exponent_sign-stops (c ∷ s) h = ground arith

number_sign-stops : (rest : Bytes) → stops rest ≡ true → number_sign rest ≡ ([], rest)
unfolding number_sign
number_sign-stops [] h = refl
number_sign-stops (c ∷ s) h = ground arith

number_fraction-stops : (rest : Bytes) → stops rest ≡ true → number_fraction rest ≡ ok ([], rest)
unfolding number_fraction
number_fraction-stops [] h = refl
number_fraction-stops (c ∷ s) h = ground arith

number_exponent-stops : (rest : Bytes) → stops rest ≡ true → number_exponent rest ≡ ok ([], rest)
unfolding number_exponent
number_exponent-stops [] h = refl
number_exponent-stops (c ∷ s) h = ground arith

-- a pair that a part leaves, with `rest` behind its second half
abbrev with_rest : Bytes → Bytes × Bytes → Bytes × Bytes
with_rest rest (t, r) = (t, r ++ rest)

span_digits-append :
    (rest : Bytes)
    → stops rest ≡ true
    → (s : Bytes) → span_digits (s ++ rest) ≡ with_rest rest (span_digits s)
unfolding span_digits
span_digits-append rest h [] = span_digits-stops rest h
span_digits-append rest h (c ∷ s) = elim (Bool-cases (is_digit c)) [
  | inl d ↦ rw (d, span_digits-append rest h s) refl
  | inr d ↦ rw d refl
]

number_sign-append :
    (rest : Bytes)
    → stops rest ≡ true
    → (s : Bytes) → number_sign (s ++ rest) ≡ with_rest rest (number_sign s)
unfolding number_sign
number_sign-append rest h [] = number_sign-stops rest h
number_sign-append rest h (c ∷ s) = elim (Bool-cases (c == b'-')) [
  | inl d ↦ rw d refl
  | inr d ↦ rw d refl
]

exponent_sign-append :
    (rest : Bytes)
    → stops rest ≡ true
    → (s : Bytes) → exponent_sign (s ++ rest) ≡ with_rest rest (exponent_sign s)
unfolding exponent_sign
exponent_sign-append rest h [] = exponent_sign-stops rest h
exponent_sign-append rest h (c ∷ s) = elim (Bool-cases (c == b'+' || c == b'-')) [
  | inl d ↦ rw d refl
  | inr d ↦ rw d refl
]

-- the same, of a part that may fail
abbrev extend : Bytes → Outcome (Bytes × Bytes) → Outcome (Bytes × Bytes)
extend rest (ok p) = ok (with_rest rest p)
extend rest (err e) = err e
extend rest out_of_fuel = out_of_fuel

digits_behind-with_rest :
    (message : String) (rest mark : Bytes) (p : Bytes × Bytes)
    → digits_behind message mark (with_rest rest p) ≡ extend rest (digits_behind message mark p)
unfolding digits_behind
digits_behind-with_rest message rest mark ([], r) = refl
digits_behind-with_rest message rest mark (d ∷ ds, r) = refl

number_integer-append :
    (rest : Bytes)
    → stops rest ≡ true
    → (s : Bytes) → number_integer (s ++ rest) ≡ extend rest (number_integer s)
unfolding number_integer
number_integer-append rest h [] = stopped rest h
  where
    stopped : (r : Bytes) → stops r ≡ true → number_integer r ≡ err "invalid JSON number"
    stopped [] h = refl
    stopped (c ∷ s) h = ground arith
number_integer-append rest h (c ∷ s) = elim (Bool-cases (c == b'0')) [
  | inl z ↦ rw z refl
  | inr z ↦ rw z (elim (Bool-cases (within b'1' b'9' c)) [
    | inl d ↦ rw (d, span_digits-append rest h (c ∷ s)) refl
    | inr d ↦ rw d refl
  ])
]

number_fraction-append :
    (rest : Bytes)
    → stops rest ≡ true
    → (s : Bytes) → number_fraction (s ++ rest) ≡ extend rest (number_fraction s)
unfolding number_fraction
number_fraction-append rest h [] = number_fraction-stops rest h
number_fraction-append rest h (c ∷ s) = elim (Bool-cases (c == b'.')) [
  | inl z ↦
      rw (z, span_digits-append rest h s) (digits_behind-with_rest _ rest (c ∷ []) (span_digits s))
  | inr z ↦ rw z refl
]

number_exponent-append :
    (rest : Bytes)
    → stops rest ≡ true
    → (s : Bytes) → number_exponent (s ++ rest) ≡ extend rest (number_exponent s)
unfolding number_exponent
number_exponent-append rest h [] = number_exponent-stops rest h
number_exponent-append rest h (c ∷ s) = elim (Bool-cases (c == b'e' || c == b'E')) [
  | inl z ↦
      rw (z, exponent_sign-append rest h s, span_digits-append rest h (exponent_sign s).1)
        (digits_behind-with_rest _ rest (c ∷ (exponent_sign s).0) (span_digits (exponent_sign s).1))
  | inr z ↦ rw z refl
]

-- a part, then the others
extend->>= :
    (rest : Bytes) (o : Outcome (Bytes × Bytes)) (f : Bytes × Bytes → Outcome (Bytes × Bytes))
    → ((p : Bytes × Bytes) → f (with_rest rest p) ≡ extend rest (f p))
    → (extend rest o >>= f) ≡ extend rest (o >>= f)
extend->>= rest (ok p) f h = h p
extend->>= rest (err e) f h = refl
extend->>= rest out_of_fuel f h = refl

-- Text behind a value does not change the number that is read.
pub parse_number-append :
    (rest : Bytes)
    → stops rest ≡ true
    → (s : Bytes) → parse_number (s ++ rest) ≡ extend rest (parse_number s)
unfolding parse_number
parse_number-append rest h s =
    rw (number_sign-append rest h s, number_integer-append rest h (number_sign s).1)
      (extend->>= rest (number_integer (number_sign s).1) _ λ w.
        rw (number_fraction-append rest h w.1) (
          extend->>= rest (number_fraction w.1) _ λ p.
            rw (number_exponent-append rest h p.1)
              (extend->>= rest (number_exponent p.1) _ λ q. refl)))
