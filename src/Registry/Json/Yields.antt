-- ===== src/Registry/Json/Yields.antt =====
-- What the steps around the elements of a container yield and leave.
use mcp_observatory.Prelude.{
  Bytes, ltb, ◌==◌, ==→eq, Outcome, Ensures, holds, rejected, Ensures-weaken, Ensures-branch, ℕ,
  ◌+◌, ◌≤◌, String, ◌≡◌, sym, subst, true, [], ◌∷◌, arith,
}
use mcp_observatory.Scan.{expect}
use mcp_observatory.Scan.Tail.{IsRest-left, IsRest-right, IsRest-trans}
use mcp_observatory.Registry.Json.Characters.{Leaves, IsWhole-tail}
use mcp_observatory.Registry.Json.Encoding.{IsWhole}
use mcp_observatory.Registry.Json.Leaves.{Drops, Drops-one, skip_space-Leaves}
use mcp_observatory.Registry.Json.Model.{Json}
use mcp_observatory.Registry.Json.Normal.{IsNormal, nesting}
use mcp_observatory.Registry.Json.Parser.{open_container, next_entry, skip_json_space}

-- a result and what it leaves of a text
abbrev pub Yields {ℓ} : {A : Type 0} → (A → Type ℓ) → Bytes → A × Bytes → Type ℓ
Yields P s p = P p.0 × Drops p.1 s

abbrev pub GoodValue : ℕ → Json → Type 0
GoodValue depth v = IsNormal v × (depth + nesting v ≤ 64)

-- a loop that is entered at rests of `s`
abbrev pub Loops : {A : Type 0} → (A → Type 0) → Bytes → (Bytes → Outcome (A × Bytes)) → Type 0
Loops P s loop = (t : Bytes) → Drops t s → Ensures (Yields P t) (loop t)

pub Drops-right : (r s t : Bytes) → Drops r s → Leaves s t → Drops r t
Drops-right r s t (d, w) (l, x) = (IsRest-right d l, w)

pub Drops-then : (r s t : Bytes) → Drops r s → Drops s t → Drops r t
Drops-then r s t (d, w) (e, x) = (IsRest-trans d e, w)

pub Leaves-then : (r s t : Bytes) → Leaves r s → Drops s t → Drops r t
Leaves-then r s t (l, w) (d, x) = (IsRest-left l d, w)

pub expect-Drops :
    (byte : ℕ) (message : String) (s : Bytes)
    → ltb byte 0x80 ≡ true
    → IsWhole s
    → Ensures (λ r. Drops r s) (expect byte message s)
unfolding expect
expect-Drops byte message [] h g = rejected
expect-Drops byte message (c ∷ s) h g =
    Ensures-branch (c == byte)
      (λ e. holds (Drops-one c s (subst (λ b. ltb b 0x80 ≡ true) (sym (==→eq c byte e)) h) g))
      (λ _. rejected)

module _ {A : Type 0} (P : A → Type 0) where
  pub open_container-Yields :
      (closing : ℕ) (empty : A) (first : Bytes → Outcome (A × Bytes)) (t s : Bytes)
      → ltb closing 0x80 ≡ true
      → P empty
      → Drops t s
      → Loops P s first
      → Ensures (Yields P s) (open_container closing empty first t)
  unfolding open_container
  open_container-Yields closing empty first [] s h p d f =
      Ensures-weaken (f [] d) λ q (a, b). (a, Drops-then _ _ _ b d)
  open_container-Yields closing empty first (c ∷ t) s h p (d, w) f =
      Ensures-branch (c == closing)
        (λ e. holds (p, Drops-then _ _ _ (Drops-one c t (ground arith) w) (d, w)))
        (λ _. Ensures-weaken (f (c ∷ t) (d, w)) λ q (a, b). (a, Drops-then _ _ _ b (d, w)))

  pub next_entry-Yields :
      (closing : ℕ) (message : String) (value : A) (next : Bytes → Outcome (A × Bytes))
      (t s : Bytes)
      → ltb closing 0x80 ≡ true
      → P value
      → Drops t s
      → Loops P s next
      → Ensures (Yields P s) (next_entry closing message value next t)
  unfolding next_entry
  next_entry-Yields closing message value next [] s h p d f = rejected
  next_entry-Yields closing message value next (c ∷ t) s h p (d, w) f =
      Ensures-branch (c == closing)
        (λ e. holds (p, Drops-then _ _ _ (Drops-one c t (ground arith) w) (d, w)))
        (λ _.
          Ensures-branch (c == b',')
            (λ e.
              let (l, x) = skip_space-Leaves t (IsWhole-tail c t (ground arith) w) in
              let q =
                Leaves-then _ _ _ (l, x)
                  (Drops-then _ _ _ (Drops-one c t (ground arith) w) (d, w)) in
              Ensures-weaken (f (skip_json_space t) q) λ r (a, k). (a, Drops-then _ _ _ k q))
            (λ _. rejected))
