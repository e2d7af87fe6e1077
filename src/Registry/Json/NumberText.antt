-- ===== src/Registry/Json/NumberText.antt =====
-- The text that `parse_number` keeps is the text of a number.
use mcp_observatory.Prelude.{
  Bytes, ◌==◌, Bool-cases, ok, Ensures, holds, rejected, ℕ, ◌≡◌, refl, inl, inr, Bool, true, not,
  ◌||◌, [], ◌∷◌, ◌++◌, arith, within, Ensures-bind, sym, false, append-nil, ap, ◌∙◌,
}
use mcp_observatory.Scan.{span_digits, is_digit}
use mcp_observatory.Registry.Json.Numbers.{
  digits_behind, number_fraction, number_exponent, number_sign, number_integer, exponent_sign,
  parse_number,
}

-- nothing, or a byte of a kind
abbrev headed : (ℕ → Bool) → Bytes → Bool
headed test [] = true
headed test (c ∷ s) = test c

abbrev marks_exponent : ℕ → Bool
marks_exponent c = c == b'e' || c == b'E'

abbrev marks_part : ℕ → Bool
marks_part c = c == b'.' || marks_exponent c

abbrev not_digit : ℕ → Bool
not_digit c = not (is_digit c)

-- digits in front of other text are read again
SpansAgain : Bytes → Type 0
SpansAgain ds = (x : Bytes) → headed not_digit x ≡ true → span_digits (ds ++ x) ≡ (ds, x)

span_digits-none : (x : Bytes) → headed not_digit x ≡ true → span_digits x ≡ ([], x)
unfolding span_digits
span_digits-none [] h = refl
span_digits-none (c ∷ s) h = ground arith

span_digits-again : (s : Bytes) → SpansAgain (span_digits s).0
unfolding span_digits SpansAgain
span_digits-again [] x h = span_digits-none x h
span_digits-again (c ∷ s) x h = elim (Bool-cases (is_digit c)) [
  | inl d ↦ rw (d, span_digits-again s x h, d) refl
  | inr d ↦ rw (d, span_digits-none x h) refl
]

exponent-not_digit : (x : Bytes) → headed marks_exponent x ≡ true → headed not_digit x ≡ true
exponent-not_digit [] h = refl
exponent-not_digit (c ∷ s) h = ground arith

part-not_digit : (x : Bytes) → headed marks_part x ≡ true → headed not_digit x ≡ true
part-not_digit [] h = refl
part-not_digit (c ∷ s) h = ground arith

abbrev FractionAgain : Bytes × Bytes → Type 0
FractionAgain p =
    ((x : Bytes) → headed marks_exponent x ≡ true → headed marks_part (p.0 ++ x) ≡ true)
    × ((x : Bytes) → headed marks_exponent x ≡ true → number_fraction (p.0 ++ x) ≡ ok (p.0, x))

no_fraction : (r : Bytes) → FractionAgain ([], r)
unfolding number_fraction
no_fraction r = (exponent-part, quiet)
  where
    exponent-part : (x : Bytes) → headed marks_exponent x ≡ true → headed marks_part x ≡ true
    exponent-part [] h = refl
    exponent-part (c ∷ s) h = ground arith

    quiet : (x : Bytes) → headed marks_exponent x ≡ true → number_fraction x ≡ ok ([], x)
    quiet [] h = refl
    quiet (c ∷ s) h = ground arith

dot-again :
    (c : ℕ) (p : Bytes × Bytes)
    → (c == b'.') ≡ true
    → SpansAgain p.0
    → Ensures FractionAgain (digits_behind "invalid JSON fraction" (c ∷ []) p)
unfolding digits_behind number_fraction SpansAgain
dot-again c ([], r) h f = rejected
dot-again c (d ∷ ds, r) h f =
    holds ((λ x k. ground arith), (λ x k. rw (h, f x (exponent-not_digit x k)) refl))

number_fraction-again : (s : Bytes) → Ensures FractionAgain (number_fraction s)
unfolding number_fraction
number_fraction-again [] = holds (no_fraction [])
number_fraction-again (c ∷ s) = elim (Bool-cases (c == b'.')) [
  | inl h ↦ rw h (dot-again c (span_digits s) h (span_digits-again s))
  | inr h ↦ rw h (holds (no_fraction (c ∷ s)))
]

abbrev ExponentAgain : Bytes × Bytes → Type 0
ExponentAgain p = (headed marks_exponent p.0 ≡ true) × (number_exponent p.0 ≡ ok (p.0, []))

-- what is read behind a sign
abbrev SignAgain : Bytes → Type 0
SignAgain sign =
    (d : ℕ) (ds : Bytes) → is_digit d ≡ true → exponent_sign (sign ++ d ∷ ds) ≡ (sign, d ∷ ds)

exponent_sign-again : (s : Bytes) → SignAgain (exponent_sign s).0
unfolding exponent_sign
exponent_sign-again [] d ds h = ground arith
exponent_sign-again (c ∷ s) d ds h = elim (Bool-cases (c == b'+' || c == b'-')) [
  | inl k ↦ rw (k, exponent_sign, k) refl
  | inr k ↦ rw (k, exponent_sign) (ground arith)
]

span_digits-headed : (s : Bytes) → headed is_digit (span_digits s).0 ≡ true
unfolding span_digits
span_digits-headed [] = refl
span_digits-headed (c ∷ s) = elim (Bool-cases (is_digit c)) [
  | inl d ↦ rw (d, span_digits) d
  | inr d ↦ rw (d, span_digits) refl
]

mark-again :
    (c : ℕ) (sign : Bytes) (p : Bytes × Bytes)
    → marks_exponent c ≡ true
    → SignAgain sign
    → headed is_digit p.0 ≡ true
    → SpansAgain p.0
    → Ensures ExponentAgain (digits_behind "invalid JSON exponent" (c ∷ sign) p)
unfolding digits_behind number_exponent SpansAgain
mark-again c sign ([], r) h k d f = rejected
mark-again c sign (d ∷ ds, r) h k e f =
    let alone : span_digits (d ∷ ds) ≡ (d ∷ ds, []) =
      ap span_digits (sym (append-nil (d ∷ ds))) ∙ f [] refl in
    holds (h, rw (h, k d ds e, alone) refl)

number_exponent-again : (s : Bytes) → Ensures ExponentAgain (number_exponent s)
unfolding number_exponent
number_exponent-again [] = holds (refl, refl)
number_exponent-again (c ∷ s) = elim (Bool-cases (marks_exponent c)) [
  | inl h ↦ rw h (
      mark-again c (exponent_sign s).0 (span_digits (exponent_sign s).1) h (exponent_sign-again s)
        (span_digits-headed (exponent_sign s).1) (span_digits-again (exponent_sign s).1))
  | inr h ↦ rw h (holds (refl, refl))
]

abbrev IntegerAgain : Bytes × Bytes → Type 0
IntegerAgain p =
    ((x : Bytes) → headed marks_part x ≡ true → number_integer (p.0 ++ x) ≡ ok (p.0, x))
    × ((x : Bytes) → number_sign (p.0 ++ x) ≡ ([], p.0 ++ x))

nonzero_digit : (c : ℕ) → within b'1' b'9' c ≡ true → (is_digit c ≡ true) × ((c == b'-') ≡ false)
nonzero_digit c h = (ground arith, ground arith)

digits-again :
    (c : ℕ) (s : Bytes)
    → (c == b'0') ≡ false
    → within b'1' b'9' c ≡ true
    → IntegerAgain (span_digits (c ∷ s))
unfolding number_integer number_sign span_digits SpansAgain
digits-again c s z d =
    let (g, m) = nonzero_digit c d in
    rw (g, span_digits)
      ((λ x k. rw (z, d, g, span_digits-again s x (part-not_digit x k)) refl), (λ x. rw m refl))

number_integer-again : (s : Bytes) → Ensures IntegerAgain (number_integer s)
unfolding number_integer number_sign
number_integer-again [] = rejected
number_integer-again (c ∷ s) = elim (Bool-cases (c == b'0')) [
  | inl z ↦ rw z (holds ((λ x k. rw z refl), (λ x. ground arith)))
  | inr z ↦ rw z (elim (Bool-cases (within b'1' b'9' c)) [
    | inl d ↦ rw d (holds (digits-again c s z d))
    | inr d ↦ rw d rejected
  ])
]

number_sign-again :
    (s y : Bytes)
    → number_sign y ≡ ([], y)
    → number_sign ((number_sign s).0 ++ y) ≡ ((number_sign s).0, y)
unfolding number_sign
number_sign-again [] y h = h
number_sign-again (c ∷ s) y h = elim (Bool-cases (c == b'-')) [
  | inl k ↦ rw (k, number_sign, k) refl
  | inr k ↦ rw (k, number_sign) h
]

-- The text of a number that is read from any text is, alone, the text of that number.
pub parse_number-again :
    (s : Bytes) → Ensures (λ p. parse_number p.0 ≡ ok (p.0, [])) (parse_number s)
unfolding parse_number
parse_number-again s = Ensures-bind (number_integer-again (number_sign s).1) λ w (wi, ws).
    Ensures-bind (number_fraction-again w.1) λ p (ph, pf).
      Ensures-bind (number_exponent-again p.1) λ q (qh, qe). holds (
        rw
          (
            number_sign-again s (w.0 ++ (p.0 ++ q.0)) (ws (p.0 ++ q.0)),
            wi (p.0 ++ q.0) (ph q.0 qh),
            pf q.0 qh,
            qe,
          )
          refl)
