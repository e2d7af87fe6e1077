-- ===== src/Package/Equivalence.antt =====
-- `pypi_versions_equivalent` compares the versions that two texts spell.
use mcp_observatory.Prelude.{
  Bytes, ok, ◌==◌, if◌then◌else◌, Bool-cases, null, all, equal, equal_iff, equal_refl, ℕ, ◌≡◌, refl,
  sym, ap, ◌∙◌, subst, inl, inr, Bool, true, false, ◌&&◌, Option, none, some, List, [], ◌∷◌, arith,
}
use mcp_observatory.Scan.{decimal}
use mcp_observatory.Package.Versions.{
  PypiVersionIdentity, parse_pypi_version_identity, same_prerelease, same_identity,
  pypi_versions_equivalent, drop_zeros, without_zeros,
}
use mcp_observatory.Package.Spelled.{parse_pypi_version_identity-spelled}
use mcp_observatory.Package.Spelling.{
  Phase, alpha, beta, candidate, Prerelease, Spelling, IsSpelling, spelled, numbers, meaning, rank,
  prerelease_meaning,
}

-- the same numbers, if the shorter of two lists is filled up with zeros
abbrev pub same_release : List ℕ → List ℕ → Bool
same_release [] ys = all (λ y. y == 0) ys
same_release (x ∷ xs) [] = x == 0 && same_release xs []
same_release (x ∷ xs) (y ∷ ys) = x == y && same_release xs ys

abbrev pub same_phase : Phase → Phase → Bool
same_phase alpha alpha = true
same_phase beta beta = true
same_phase candidate candidate = true
same_phase _ _ = false

-- both without a pre-release, or both with one of the same phase and number, where no number is 0
abbrev pub same_stage : Option Prerelease → Option Prerelease → Bool
same_stage none none = true
same_stage (some p) (some q) =
    same_phase p.phase q.phase && decimal 0 p.number == decimal 0 q.number
same_stage _ _ = false

null-drop_zeros : (xs : List ℕ) → null (drop_zeros xs) ≡ same_release xs []
null-drop_zeros [] = refl
null-drop_zeros (x ∷ xs) = ground (arith, null-drop_zeros xs)

nothing-drop_zeros : (ys : List ℕ) → null (drop_zeros ys) ≡ all (λ y. y == 0) ys
nothing-drop_zeros [] = refl
nothing-drop_zeros (y ∷ ys) = ground (arith, nothing-drop_zeros ys)

equal-nil : (ys : List ℕ) → equal [] ys ≡ null ys
unfolding equal
equal-nil [] = refl
equal-nil (y ∷ ys) = refl

equal-onto_nil : (xs : List ℕ) → equal xs [] ≡ null xs
unfolding equal
equal-onto_nil [] = refl
equal-onto_nil (x ∷ xs) = refl

-- two numbers with what is left of the lists behind them
heads :
    (x y : ℕ) (xs ys : List ℕ)
    → equal (if null xs && x == 0 then [] else x ∷ xs) (if null ys && y == 0 then [] else y ∷ ys)
      ≡ (x == y && equal xs ys)
unfolding equal
heads x y [] [] = ground arith
heads x y [] (b ∷ ys) = ground arith
heads x y (a ∷ xs) [] = ground arith
heads x y (a ∷ xs) (b ∷ ys) = refl

equal-drop_zeros : (xs ys : List ℕ) → equal (drop_zeros xs) (drop_zeros ys) ≡ same_release xs ys
equal-drop_zeros [] ys = equal-nil (drop_zeros ys) ∙ nothing-drop_zeros ys
equal-drop_zeros (x ∷ xs) [] = equal-onto_nil (drop_zeros (x ∷ xs)) ∙ null-drop_zeros (x ∷ xs)
equal-drop_zeros (x ∷ xs) (y ∷ ys) =
    heads x y (drop_zeros xs) (drop_zeros ys) ∙ rw (equal-drop_zeros xs ys) refl

equal-without_zeros :
    (p q : ℕ × Bytes) (ps qs : List (ℕ × Bytes))
    → equal (without_zeros (numbers p ps)) (without_zeros (numbers q qs))
      ≡ same_release (numbers p ps) (numbers q qs)
unfolding equal without_zeros
equal-without_zeros p q [] [] = refl
equal-without_zeros p q [] (s ∷ qs) = rw (equal-drop_zeros [] (numbers s qs)) refl
equal-without_zeros p q (r ∷ ps) [] = rw (equal-drop_zeros (numbers r ps) []) refl
equal-without_zeros p q (r ∷ ps) (s ∷ qs) = rw (equal-drop_zeros (numbers r ps) (numbers s qs)) refl

rank-same_phase : (p q : Phase) → (rank p == rank q) ≡ same_phase p q
rank-same_phase alpha alpha = refl
rank-same_phase alpha beta = refl
rank-same_phase alpha candidate = refl
rank-same_phase beta alpha = refl
rank-same_phase beta beta = refl
rank-same_phase beta candidate = refl
rank-same_phase candidate alpha = refl
rank-same_phase candidate beta = refl
rank-same_phase candidate candidate = refl

same_prerelease-meaning :
    (p q : Option Prerelease)
    → same_prerelease (prerelease_meaning p) (prerelease_meaning q) ≡ same_stage p q
same_prerelease-meaning none none = refl
same_prerelease-meaning none (some q) = refl
same_prerelease-meaning (some p) none = refl
same_prerelease-meaning (some p) (some q) = rw (rank-same_phase p.phase q.phase) refl

same_identity-meaning :
    (l r : Spelling)
    → same_identity (meaning l) (meaning r) ≡ (
        same_release (numbers l.first l.more) (numbers r.first r.more)
        && same_stage l.prerelease r.prerelease)
unfolding same_identity meaning
same_identity-meaning l r =
    rw
      (
        equal-without_zeros l.first r.first l.more r.more,
        same_prerelease-meaning l.prerelease r.prerelease,
      )
      refl

same_prerelease_refl : (a : Option (ℕ × ℕ)) → same_prerelease a a ≡ true
same_prerelease_refl none = refl
same_prerelease_refl (some (k, m)) = ground arith

same_identity_refl : (a : PypiVersionIdentity) → same_identity a a ≡ true
unfolding same_identity
same_identity_refl a = rw (equal_refl a.release, same_prerelease_refl a.prerelease) refl

ok-some : (a b : PypiVersionIdentity) → ok (some a) ≡ ok (some b) → a ≡ b
ok-some a b e = cc

same_text :
    (l r : Spelling)
    → IsSpelling l
    → IsSpelling r
    → spelled l ≡ spelled r
    → same_identity (meaning l) (meaning r) ≡ true
same_text l r h k e =
    let same = ok-some (meaning l) (meaning r) (
      sym (parse_pypi_version_identity-spelled l h)
      ∙ ap parse_pypi_version_identity e
      ∙ parse_pypi_version_identity-spelled r k) in
    subst (λ v. same_identity (meaning l) v ≡ true) same (same_identity_refl (meaning l))

-- Two texts that each spell a version (a `v` or none; components of decimal digits, with dots
-- between them; a pre-release or none, whose word may be in upper case, with a separator or none
-- around it, and whose number may be left out), of at most 512 bytes and with numbers below 2^64,
-- are compared by what they spell: the components are the same if the shorter release is filled
-- up with zeros, and the phases and numbers of the pre-releases are the same, where `a` and
-- `alpha`, `b` and `beta`, and `rc`, `c`, `pre` and `preview` are one phase each, and a number
-- left out is 0.
pub pypi_versions_equivalent-spelled :
    (left right : Spelling)
    → IsSpelling left
    → IsSpelling right
    → pypi_versions_equivalent (spelled left) (spelled right)
      ≡ ok (
          same_release (numbers left.first left.more) (numbers right.first right.more)
          && same_stage left.prerelease right.prerelease)
unfolding pypi_versions_equivalent
pypi_versions_equivalent-spelled left right h k =
    elim (Bool-cases (equal (spelled left) (spelled right))) [
      | inl e ↦ rw e (
          ap ok (
            sym (same_text left right h k ((equal_iff (spelled left) (spelled right)).0 e))
            ∙ same_identity-meaning left right))
      | inr e ↦
          rw
            (
              e,
              parse_pypi_version_identity-spelled left h,
              parse_pypi_version_identity-spelled right k,
            )
            (ap ok (same_identity-meaning left right))
    ]
