-- ===== src/Archive/Parts.antt =====
-- The parts of a path.
use mcp_observatory.Prelude.{
  Bytes, ◌==◌, Bool-cases, null, All, has_byte, after_last, front, ℕ, ◌≡◌, refl, ap, inl, inr, Bool,
  true, false, ◌||◌, List, [], ◌∷◌, ◌++◌, arith, if◌then◌else◌, ==→eq,
}
use mcp_observatory.Archive.Paths.{
  first_segment, any, segments, forward_slashes, without_leading_slashes, directory,
}

pub any-append :
    (test : Bytes → Bool) (xs ys : List Bytes) → any test (xs ++ ys) ≡ (any test xs || any test ys)
any-append test [] ys = refl
any-append test (x ∷ xs) ys = ground (arith, any-append test xs ys)

pub All-any :
    (test : Bytes → Bool) (xs : List Bytes) → All (λ x. test x ≡ false) xs → any test xs ≡ false
All-any test [] h = refl
All-any test (x ∷ xs) (a, h) = ground (arith, All-any test xs h)

pub first_segment-append :
    (c : ℕ) (xs ys : List Bytes)
    → null xs ≡ false
    → first_segment c (xs ++ ys) ≡ first_segment c xs ++ ys
first_segment-append c [] ys h = cc
first_segment-append c (x ∷ xs) ys h = refl

pub null-first_segment : (c : ℕ) (xs : List Bytes) → null (first_segment c xs) ≡ false
null-first_segment c [] = refl
null-first_segment c (x ∷ xs) = refl

pub null-segments : (s : Bytes) → null (segments s) ≡ false
unfolding segments
null-segments [] = refl
null-segments (c ∷ s) = elim (Bool-cases (c == b'/')) [
  | inl h ↦ rw h refl
  | inr h ↦ rw h (null-first_segment c (segments s))
]

-- a slash ends a segment
pub segments-append : (a b : Bytes) → segments (a ++ b'/' ∷ b) ≡ segments a ++ segments b
unfolding segments
segments-append [] b = refl
segments-append (c ∷ a) b = elim (Bool-cases (c == b'/')) [
  | inl h ↦ rw (h, segments-append a b) refl
  | inr h ↦
      rw (h, segments-append a b)
        (first_segment-append c (segments a) (segments b) (null-segments a))
]

pub directory-after_last :
    (path : Bytes)
    → has_byte b'/' path ≡ true
    → path ≡ directory path ++ b'/' ∷ after_last b'/' path
unfolding directory after_last has_byte
directory-after_last [] h = cc
directory-after_last (c ∷ s) h = elim (Bool-cases (has_byte b'/' s)) [
  | inl k ↦ rw k (ap (◌∷◌ c) (directory-after_last s k))
  | inr k ↦ rw k (alone (==→eq c b'/' (slash k)) (slash k))
]
  where
    slash : has_byte b'/' s ≡ false → (c == b'/') ≡ true
    slash k = ground arith

    alone : c ≡ b'/' → (c == b'/') ≡ true → c ∷ s ≡ b'/' ∷ (if c == b'/' then s else [])
    alone e t = rw t (ap (λ d. d ∷ s) e)

pub has_byte-append : (c : ℕ) (a b : Bytes) → has_byte c (a ++ b) ≡ (has_byte c a || has_byte c b)
unfolding has_byte
has_byte-append c [] b = refl
has_byte-append c (x ∷ a) b = ground (arith, has_byte-append c a b)

pub forward_slashes-same : (s : Bytes) → has_byte b'\\' s ≡ false → forward_slashes s ≡ s
unfolding forward_slashes has_byte
forward_slashes-same [] h = refl
forward_slashes-same (c ∷ s) h = ground (arith, forward_slashes-same s)

pub without_leading_slashes-same :
    (s : Bytes) → (front s == b'/') ≡ false → without_leading_slashes s ≡ s
unfolding without_leading_slashes
without_leading_slashes-same [] h = refl
without_leading_slashes-same (c ∷ s) h = rw h refl
