-- ===== src/Prelude/Text.antt =====
-- The operations of `std::string_view` that the components share.
use Prim.Native.Nat.{ℕ, ◌-◌}
use mathlib.Core.Bool.{Bool, false, ◌&&◌, ◌||◌}
use mathlib.Core.List.{[], ◌∷◌}
use mcp_observatory.Prelude.Tests.{leb, ◌==◌, if◌then◌else◌}
use mcp_observatory.Prelude.Lists.{Bytes, length, take, drop}
use mcp_observatory.Prelude.Order.{equal}

unfoldable pub starts_with : Bytes → Bytes → Bool
unfolding equal
starts_with value prefix = equal (take (length prefix) value) prefix

unfoldable pub ends_with : Bytes → Bytes → Bool
unfolding equal
ends_with value suffix =
    leb (length suffix) (length value) && equal (drop (length value - length suffix) value) suffix

-- `value.find(c) != npos`
unfoldable pub has_byte : ℕ → Bytes → Bool
has_byte c [] = false
has_byte c (x ∷ s) = x == c || has_byte c s

-- what stands before the first `c`, or all
unfoldable pub until_byte : ℕ → Bytes → Bytes
until_byte c [] = []
until_byte c (x ∷ s) = let rest = until_byte c s in if x == c then [] else x ∷ rest

-- what follows the last `c`; with no `c`, nothing
unfoldable pub after_last : ℕ → Bytes → Bytes
unfolding has_byte
after_last c [] = []
after_last c (x ∷ s) =
    let rest = after_last c s in if has_byte c s then rest else if x == c then s else []

-- `value.front()` and `value.back()`; the callers have tested for emptiness
abbrev pub front : Bytes → ℕ
front [] = 0
front (c ∷ s) = c

abbrev pub back : Bytes → ℕ
back [] = 0
back (c ∷ []) = c
back (c ∷ d ∷ s) = back (d ∷ s)
