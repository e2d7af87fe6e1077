-- ===== src/Scan/Tail.antt =====
-- What a scan leaves is the end of the text it was given.
use mcp_observatory.Prelude.{
  ℕ, Bytes, length, take, suc, ◌-◌, ◌≤◌, ◌<◌, ◌≡◌, refl, ap, ◌∷◌, ◌++◌, arith,
}

-- `r` is `s`, or `s` without some bytes at its front.
pub data IsTail (r : Bytes) : Bytes → Type 0 where
  here : IsTail r r
  there : {c : ℕ} {s : Bytes} → IsTail r s → IsTail r (c ∷ s)

-- the same, with at least one byte gone
pub data IsRest (r : Bytes) : Bytes → Type 0 where
  behind : {c : ℕ} {s : Bytes} → IsTail r s → IsRest r (c ∷ s)

pub IsTail-trans : {r s t : Bytes} → IsTail r s → IsTail s t → IsTail r t
IsTail-trans p here = p
IsTail-trans p (there q) = there (IsTail-trans p q)

pub IsRest-IsTail : {r s : Bytes} → IsRest r s → IsTail r s
IsRest-IsTail (behind p) = there p

pub IsRest-left : {r s t : Bytes} → IsTail r s → IsRest s t → IsRest r t
IsRest-left p (behind q) = behind (IsTail-trans p q)

pub IsRest-right : {r s t : Bytes} → IsRest r s → IsTail s t → IsRest r t
IsRest-right p here = p
IsRest-right p (there q) = behind (IsTail-trans (IsRest-IsTail p) q)

pub IsRest-trans : {r s t : Bytes} → IsRest r s → IsRest s t → IsRest r t
IsRest-trans p q = IsRest-left (IsRest-IsTail p) q

pub length-IsTail : {r s : Bytes} → IsTail r s → length r ≤ length s
length-IsTail here = omega arith
length-IsTail (there p) = omega (arith, length-IsTail p)

pub length-IsRest : {r s : Bytes} → IsRest r s → length r < length s
length-IsRest (behind p) = omega (arith, length-IsTail p)

-- `text.substr(begin, position - begin)`, from the texts at the two positions
unfoldable pub between : Bytes → Bytes → Bytes
between begin end = take (length begin - length end) begin

take-length-sub : {r s : Bytes} → IsTail r s → take (length s - length r) s ++ r ≡ s
take-length-sub {r} here = rw (let e : length r - length r ≡ 0 = omega arith in e) refl
take-length-sub {r} {s} (there {c} {s = t} p) =
    rw
      (let e : suc (length t) - length r ≡ suc (length t - length r) =
          omega (arith, length-IsTail p) in
        e)
      (ap (◌∷◌ c) (take-length-sub p))

-- what a scan read, and what it left
pub between-append : {r s : Bytes} → IsTail r s → between s r ++ r ≡ s
unfolding between
between-append p = take-length-sub p
