-- ===== src/Prelude/Integers.antt =====
-- The signed counts of the program, over the native numbers.
use Prim.Native.Nat.{ℕ, suc}
use mathlib.Core.Bool.{Bool, true, false}
use mcp_observatory.Prelude.Tests.{leb}

pub data ℤ : Type 0 where
  pos negsuc : ℕ → ℤ

-- `x > 0`
abbrev pub is_positive : ℤ → Bool
is_positive (pos n) = leb 1 n
is_positive (negsuc n) = false

-- `x < y`
abbrev pub less : ℤ → ℤ → Bool
less (pos m) (pos n) = leb (suc m) n
less (pos m) (negsuc n) = false
less (negsuc m) (pos n) = true
less (negsuc m) (negsuc n) = leb (suc n) m
