-- ===== src/Package/Components.antt =====
-- `release_loop` on the components of a spelled version.
use mcp_observatory.Prelude.{
  Bytes, length, &&-eq-true, lt→ltb, null, all, front, ok, ℕ, zero, suc, ◌<◌, ◌≡◌, refl, true,
  false, not, ◌||◌, none, some, List, [], ◌∷◌, ◌++◌, arith,
}
use mcp_observatory.Scan.{span_digits, is_digit, decimal}
use mcp_observatory.Package.Versions.{
  parse_pypi_version_number, next_component, release_loop, number_of, after_component, on_component,
}
use mcp_observatory.Package.Spelling.{release_text, IsNumber, IsComponent, AreComponents, numbers}

-- a text that does not begin with a digit
abbrev pub Stops : Bytes → Type 0
Stops s = (null s || not (is_digit (front s))) ≡ true

span_digits-append :
    (ds rest : Bytes) → all is_digit ds ≡ true → Stops rest → span_digits (ds ++ rest) ≡ (ds, rest)
unfolding span_digits
span_digits-append [] [] h k = refl
span_digits-append [] (x ∷ rest) h k = rw (let e : is_digit x ≡ false = ground arith in e) refl
span_digits-append (d ∷ ds) rest h k =
    let (p, q) = &&-eq-true (is_digit d) (all is_digit ds) h in
    rw (p, span_digits-append ds rest q k) refl

pub number-append :
    (d : ℕ) (ds rest : Bytes)
    → IsNumber (d ∷ ds)
    → Stops rest
    → parse_pypi_version_number (d ∷ (ds ++ rest)) ≡ some (decimal 0 (d ∷ ds), rest)
unfolding parse_pypi_version_number number_of
number-append d ds rest (h, l) k = rw (span_digits-append (d ∷ ds) rest h k, lt→ltb _ _ l) refl

-- what stands behind a release
abbrev pub Closes : Bytes → Type 0
Closes rest = Stops rest × (next_component rest ≡ none)

pub first_digit : (p : ℕ × Bytes) → IsComponent p → is_digit p.0 ≡ true
first_digit p (h, l) = (&&-eq-true _ _ h).0

next-release_text :
    (p : ℕ × Bytes) (ps : List (ℕ × Bytes)) (rest : Bytes)
    → IsComponent p
    → next_component (b'.' ∷ release_text p ps rest) ≡ some (release_text p ps rest)
next-release_text p [] rest h = rw (first_digit p h) refl
next-release_text p (q ∷ ps) rest h = rw (first_digit p h) refl

pub release_loop-text :
    (f : ℕ) (p : ℕ × Bytes) (ps : List (ℕ × Bytes)) (rest : Bytes)
    → length ps < f
    → IsComponent p
    → AreComponents ps
    → Closes rest
    → release_loop f (release_text p ps rest) ≡ ok (some (numbers p ps, rest))
unfolding release_loop on_component after_component
release_loop-text zero p ps rest l h hs e = absurd (omega arith)
release_loop-text (suc f) (d, ds) [] rest l h hs (s, n) = rw (number-append d ds rest h s, n) refl
release_loop-text (suc f) (d, ds) (q ∷ ps) rest l h (k, hs) e =
    rw
      (
        number-append d ds (b'.' ∷ release_text q ps rest) h refl,
        next-release_text q ps rest k,
        release_loop-text f q ps rest (omega arith) k hs e,
      )
      refl
