-- ===== src/Prelude/Order.antt =====
-- `std::string` comparison: `operator==` and `operator<`, byte by byte on unsigned values.
use mathlib.Core.Path.{◌≡◌, refl}
use mathlib.Core.Logic.{◌↔◌}
use mathlib.Core.Bool.{Bool, true, false, ◌&&◌}
use mathlib.Core.List.{[], ◌∷◌}
use native.Mathlib.Omega.{arith}
use mcp_observatory.Prelude.Tests.{ltb, ◌==◌, if◌then◌else◌}
use mcp_observatory.Prelude.Lists.{Bytes}

unfoldable pub equal : Bytes → Bytes → Bool
equal [] [] = true
equal (x ∷ xs) (y ∷ ys) = x == y && equal xs ys
equal _ _ = false

unfoldable pub before : Bytes → Bytes → Bool
before [] [] = false
before [] (y ∷ ys) = true
before (x ∷ xs) [] = false
before (x ∷ xs) (y ∷ ys) = if ltb x y then true else x == y && before xs ys

pub equal_iff : (a b : Bytes) → (equal a b ≡ true) ↔ (a ≡ b)
unfolding equal
equal_iff [] [] = ground arith
equal_iff (x ∷ a) (y ∷ b) = ground (arith, equal_iff a b)
equal_iff _ _ = ground arith

pub equal_refl : (a : Bytes) → equal a a ≡ true
equal_refl a = (equal_iff a a).1 refl

pub before_irrefl : (a : Bytes) → before a a ≡ false
unfolding before
before_irrefl [] = refl
before_irrefl (x ∷ a) = ground (arith, before_irrefl a)

pub before_trans : (a b c : Bytes) → before a b ≡ true → before b c ≡ true → before a c ≡ true
unfolding before
before_trans [] (y ∷ b) (z ∷ c) p q = refl
before_trans (x ∷ a) (y ∷ b) (z ∷ c) p q = ground (arith, before_trans a b c)
before_trans _ _ _ p q = ground arith

pub before_total : (a b : Bytes) → before a b ≡ false → before b a ≡ false → a ≡ b
unfolding before
before_total [] [] p q = refl
before_total (x ∷ a) (y ∷ b) p q = ground (arith, before_total a b)
before_total _ _ p q = ground arith

pub before_asymm : (a b : Bytes) → before a b ≡ true → before b a ≡ false
unfolding before
before_asymm (x ∷ a) (y ∷ b) p = ground (arith, before_asymm a b)
before_asymm [] (y ∷ b) p = refl
before_asymm _ _ p = ground arith

-- "not before" is transitive
pub before_negtrans : (a b c : Bytes) → before a b ≡ false → before b c ≡ false → before a c ≡ false
unfolding before
before_negtrans [] [] c p q = q
before_negtrans [] (y ∷ b) c p q = cc
before_negtrans (x ∷ a) b [] p q = refl
before_negtrans (x ∷ a) [] (z ∷ c) p q = cc
before_negtrans (x ∷ a) (y ∷ b) (z ∷ c) p q = ground (arith, before_negtrans a b c)
