-- ===== src/Archive/Sizes.antt =====
-- `parse_octal` of src/analyze.cpp reads the number that the digits of a field write.
use mcp_observatory.Prelude.{
  Bytes, ◌==◌, within, digit, length, all, ℕ, zero, suc, ◌+◌, ◌*◌, ◌^◌, ◌≤◌, ◌<◌, ◌≡◌, refl, Bool,
  true, false, ◌||◌, [], ◌∷◌, ◌++◌, arith, ◌%◌, ◌∙◌,
}
use mcp_observatory.Archive.Octal.{octal_loop, parse_octal}

abbrev pub is_octal : ℕ → Bool
is_octal c = within b'0' b'7' c

-- what a field may have around its digits
abbrev pub is_blank : ℕ → Bool
is_blank c = c == 0 || c == b' '

-- the number that octal digits write behind a number
abbrev pub octal_from : ℕ → Bytes → ℕ
octal_from value [] = value
octal_from value (d ∷ ds) = octal_from (value * 8 + digit d) ds

-- nothing, or a blank and any text
abbrev pub ends_field : Bytes → Bool
ends_field [] = true
ends_field (c ∷ s) = is_blank c

octal_from-le : (value : ℕ) (ds : Bytes) → value ≤ octal_from value ds
octal_from-le value [] = omega arith
octal_from-le value (d ∷ ds) = omega (arith, octal_from-le (value * 8 + digit d) ds)

-- the bound on a number behind so many more digits
abbrev up : ℕ → ℕ → ℕ
up zero w = w
up (suc n) w = up n (8 * w)

up-le : (n v w : ℕ) → v ≤ w → up n v ≤ up n w
up-le zero v w h = h
up-le (suc n) v w h = up-le n (8 * v) (8 * w) (omega arith)

up-more : (n m w : ℕ) → n ≤ m → up n w ≤ up m w
up-more zero zero w h = omega arith
up-more zero (suc m) w h = omega (arith, up-more zero m (8 * w))
up-more (suc n) zero w h = absurd (omega arith)
up-more (suc n) (suc m) w h = up-more n m (8 * w) (omega arith)

octal_digit : (c : ℕ) → is_octal c ≡ true → digit c < 8
octal_digit c h = ground arith

octal_from-lt :
    (value w : ℕ) (ds : Bytes)
    → all is_octal ds ≡ true
    → value < w
    → octal_from value ds < up (length ds) w
octal_from-lt value w [] a h = h
octal_from-lt value w (d ∷ ds) a h =
    octal_from-lt (value * 8 + digit d) (8 * w) ds (ground arith)
      (omega (arith, octal_digit d (ground arith)))

octal-not_blank : (c : ℕ) → is_octal c ≡ true → is_blank c ≡ false
octal-not_blank c h = ground arith

octal_loop-digits :
    (value : ℕ) (ds rest : Bytes)
    → all is_octal ds ≡ true
    → ends_field rest ≡ true
    → octal_from value ds < 2 ^ 64
    → octal_loop true value (ds ++ rest) ≡ (true, octal_from value ds)
unfolding octal_loop
octal_loop-digits value [] [] a e h = refl
octal_loop-digits value [] (c ∷ s) a e h = rw e refl
octal_loop-digits value (d ∷ ds) rest a e h =
    rw (octal-not_blank d (ground arith), (let t : is_octal d ≡ true = ground arith in t), kept)
      (octal_loop-digits (value * 8 + digit d) ds rest (ground arith) e h)
  where
    kept : (value * 8 + digit d) % 2 ^ 64 ≡ value * 8 + digit d
    kept = omega (arith, octal_from-le (value * 8 + digit d) ds, h)

octal_loop-blanks :
    (blanks text : Bytes)
    → all is_blank blanks ≡ true
    → octal_loop false 0 (blanks ++ text) ≡ octal_loop false 0 text
unfolding octal_loop
octal_loop-blanks [] text h = refl
octal_loop-blanks (c ∷ s) text h = ground (arith, octal_loop-blanks s text)

octal_loop-first :
    (d : ℕ) (s : Bytes) → is_octal d ≡ true → octal_loop false 0 (d ∷ s) ≡ octal_loop true 0 (d ∷ s)
unfolding octal_loop
octal_loop-first d s h = rw (octal-not_blank d h) refl

-- A field of blanks, then at most 21 octal digits and at least one, then nothing or a blank and any
-- text, is accepted, and its value is the number that the digits write: nothing of it wraps around.
pub parse_octal_exact :
    (blanks : Bytes) (d : ℕ) (ds rest : Bytes)
    → all is_blank blanks ≡ true
    → all is_octal (d ∷ ds) ≡ true
    → length ds ≤ 20
    → ends_field rest ≡ true
    → parse_octal (blanks ++ (d ∷ ds ++ rest)) ≡ (true, octal_from 0 (d ∷ ds))
unfolding parse_octal
parse_octal_exact blanks d ds rest b a l e =
    octal_loop-blanks blanks (d ∷ ds ++ rest) b
    ∙ octal_loop-first d (ds ++ rest) (ground arith)
    ∙ octal_loop-digits 0 (d ∷ ds) rest a e (
        omega (
          arith,
          octal_from-lt 0 1 (d ∷ ds) a (omega arith),
          up-more (suc (length ds)) 21 1 (omega arith),
        ))
