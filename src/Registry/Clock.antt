-- ===== src/Registry/Clock.antt =====
-- `valid_utc_timestamp` of src/registry.cpp, beside the one of src/observation.cpp.
use mcp_observatory.Prelude.{
  ℕ, leb, ◌==◌, Bytes, length, Bool, not, ◌&&◌, ◌||◌, ◌+◌, ◌-◌, ◌*◌, List, [], ◌∷◌, true, false,
  refl, all, Bool-cases, inl, inr, ==→eq, ◌≡◌, arith,
}
use mcp_observatory.Scan.{is_digit}
use mcp_observatory.Observation.{
  byte_at, digits_loop, two_digits, valid_utc_timestamp as observed_timestamp,
}

-- the condition of the first return: a wrong size, or a separator that is not in its place
abbrev misshapen : Bytes → Bool
misshapen value =
    not (length value == 20)
    || not (byte_at value 4 == b'-')
    || not (byte_at value 7 == b'-')
    || not (byte_at value 10 == b'T')
    || not (byte_at value 13 == b':')
    || not (byte_at value 16 == b':')
    || not (byte_at value 19 == b'Z')

-- the places that the loop goes over
abbrev digit_places : List ℕ
digit_places = 0 ∷ 1 ∷ 2 ∷ 3 ∷ 5 ∷ 6 ∷ 8 ∷ 9 ∷ 11 ∷ 12 ∷ 14 ∷ 15 ∷ 17 ∷ 18 ∷ []

abbrev no_digit : ℕ → Bool
no_digit c = not (leb b'0' c) || not (leb c b'9')

-- the loop, which returns false at the first place without a digit
abbrev digits_at : List ℕ → Bytes → Bool
digits_at [] value = true
digits_at (index ∷ places) value = not (no_digit (byte_at value index)) && digits_at places value

-- the two digits at an index, as a number
abbrev pub number : Bytes → ℕ → ℕ
number value index = (byte_at value index - b'0') * 10 + (byte_at value (index + 1) - b'0')

unfoldable pub valid_utc_timestamp : Bytes → Bool
valid_utc_timestamp value =
    not (misshapen value)
    && digits_at digit_places value
    && leb 1 (number value 5)
    && leb (number value 5) 12
    && leb 1 (number value 8)
    && leb (number value 8) 31
    && leb (number value 11) 23
    && leb (number value 14) 59
    && leb (number value 17) 59

digit_same : (c : ℕ) → not (no_digit c) ≡ is_digit c
digit_same c = ground arith

digits_at-all :
    (places : List ℕ) (value : Bytes)
    → digits_at places value ≡ all (λ i. is_digit (byte_at value i)) places
digits_at-all [] value = refl
digits_at-all (i ∷ places) value =
    rw (digit_same (byte_at value i), digits_at-all places value) refl

-- the loop over the places of digits does what the loop over all places does
digits_at-digits_loop :
    (value : Bytes)
    → length value ≡ 20
    → digits_at digit_places value ≡ digits_loop (length value) 0 value
digits_at-digits_loop value h = rw (h, digits_at-all digit_places value) refl

-- the tests of the two functions, on a text of 20 bytes
same_tests :
    (a b c d e f digits g h i j k l : Bool) (n : ℕ)
    → (not (not a || not b || not c || not d || not e || not f)
        && digits
        && g
        && h
        && i
        && j
        && k
        && l
        && leb n 59)
      ≡ (((a && b && c && d && e && f) && digits && g && h && i && j && k && l && leb n 60)
          && not (n == 60))
same_tests true true true true true true true true true true true true true n = ground arith
same_tests true true true true true true true true true true true true false n = refl
same_tests true true true true true true true true true true true false l n = refl
same_tests true true true true true true true true true true false k l n = refl
same_tests true true true true true true true true true false j k l n = refl
same_tests true true true true true true true true false i j k l n = refl
same_tests true true true true true true true false h i j k l n = refl
same_tests true true true true true true false g h i j k l n = refl
same_tests true true true true true false x g h i j k l n = refl
same_tests true true true true false f x g h i j k l n = refl
same_tests true true true false e f x g h i j k l n = refl
same_tests true true false d e f x g h i j k l n = refl
same_tests true false c d e f x g h i j k l n = refl
same_tests false b c d e f x g h i j k l n = refl

-- The registry and the observations accept the same times, except that only observations may have
-- 60 for the seconds.
pub valid_utc_timestamp-observed_timestamp :
    (value : Bytes)
    → valid_utc_timestamp value ≡ (observed_timestamp value && not (two_digits value 17 == 60))
unfolding valid_utc_timestamp observed_timestamp
valid_utc_timestamp-observed_timestamp value = elim (Bool-cases (length value == 20)) [
  | inl e ↦
      rw (digits_at-digits_loop value (==→eq _ _ e), e)
        (same_tests (byte_at value 4 == b'-') (byte_at value 7 == b'-') (byte_at value 10 == b'T')
          (byte_at value 13 == b':') (byte_at value 16 == b':') (byte_at value 19 == b'Z')
          (digits_loop (length value) 0 value) (leb 1 (number value 5)) (leb (number value 5) 12)
          (leb 1 (number value 8)) (leb (number value 8) 31) (leb (number value 11) 23)
          (leb (number value 14) 59) (number value 17))
  | inr e ↦ rw e refl
]
