-- ===== src/Registry/Json/Normalizes.antt =====
-- `parse` ends, and what it reads is in the form that `canonical_json` keeps.
use mcp_observatory.Prelude.{
  Bytes, before, ◌≡◌, true, some, Bool-cases, equal, equal_iff, before_total, ok, err, Ensures,
  holds, rejected, ℕ, ◌+◌, ◌≤◌, inl, inr, false, Option, none, arith, OnSome,
}
use mcp_observatory.Registry.Json.Model.{
  Json, Fields, end, field, emplace, Items, nil, cons, keep_field, push_back,
}
use mcp_observatory.Registry.Json.Normal.{
  Precedes, IsNormal, HasNormal, AreNormal, nesting, nesting_items, nesting_fields,
}
use mcp_observatory.Registry.Json.Utf8.{valid_utf8}
use mcp_observatory.Registry.Json.Parser.{add_field}

-- what a loop over members has so far, at a depth
abbrev pub GoodFields : ℕ → Fields → Type 0
GoodFields depth fs = HasNormal fs × (depth + nesting_fields fs ≤ 65)

abbrev Keeps : Bytes → Fields → Fields → Type 0
Keeps key fs gs = (k : Bytes) → Precedes k fs → before k key ≡ true → Precedes k gs

abbrev Inserts : ℕ → Bytes → Fields → Fields → Type 0
Inserts depth key fs gs = GoodFields depth gs × Keeps key fs gs

not-before : (key k : Bytes) → equal key k ≡ false → before key k ≡ false → before k key ≡ true
not-before key k e b = elim (Bool-cases (before k key)) [
  | inl h ↦ h
  | inr h ↦ absurd (differ ((equal_iff key k).1 (before_total key k b h)))
]
  where
    differ : equal key k ≡ true → ⊥
    differ t = ground arith

keep_field-Inserts :
    (depth : ℕ) (key k : Bytes) (w : Json) (rest : Fields) (o : Option Fields)
    → GoodFields depth (field k w rest)
    → before k key ≡ true
    → OnSome (Inserts depth key rest) o
    → OnSome (Inserts depth key (field k w rest)) (keep_field k w o)
unfolding keep_field IsNormal nesting
keep_field-Inserts depth key k w rest none g b h = tt
keep_field-Inserts depth key k w rest (some gs) ((uk, nw, p, nr), d) b ((n, d'), f) =
    (((uk, nw, f k p b, n), omega arith), λ j q c. q)

emplace-Inserts :
    (depth : ℕ) (key : Bytes) (v : Json) (fs : Fields)
    → valid_utf8 key ≡ true
    → IsNormal v
    → depth + nesting v ≤ 64
    → GoodFields depth fs
    → OnSome (Inserts depth key fs) (emplace key v fs)
unfolding emplace IsNormal nesting
emplace-Inserts depth key v end u n d g = (((u, n, tt, tt), omega arith), λ k p b. b)
emplace-Inserts depth key v (field k w rest) u n d ((uk, nw, p, nr), l) =
    elim (Bool-cases (equal key k)) [
      | inl e ↦ rw e tt
      | inr e ↦ rw e (elim (Bool-cases (before key k)) [
        | inl b ↦ rw b (((u, n, b, (uk, nw, p, nr)), omega arith), λ j q c. c)
        | inr b ↦ rw b (
            keep_field-Inserts depth key k w rest (emplace key v rest) ((uk, nw, p, nr), l)
              (not-before key k e b) (emplace-Inserts depth key v rest u n d (nr, omega arith)))
      ])
    ]

pub add_field-GoodFields :
    (depth : ℕ) (key : Bytes) (v : Json) (fs : Fields)
    → valid_utf8 key ≡ true
    → IsNormal v
    → depth + nesting v ≤ 64
    → GoodFields depth fs
    → Ensures (GoodFields depth) (add_field key v fs)
unfolding add_field
add_field-GoodFields depth key v fs u n d g =
    by_result (emplace key v fs) (emplace-Inserts depth key v fs u n d g)
  where
    by_result :
        (o : Option Fields)
        → OnSome (Inserts depth key fs) o
        → Ensures
            (GoodFields depth)
            (elim o [ none ↦ err "duplicate JSON object member" | some f ↦ ok f ])
    by_result none h = rejected
    by_result (some gs) (g, k) = holds g

abbrev pub GoodItems : ℕ → Items → Type 0
GoodItems depth xs = AreNormal xs × (depth + nesting_items xs ≤ 65)

pub push_back-GoodItems :
    (depth : ℕ) (v : Json) (xs : Items)
    → IsNormal v
    → depth + nesting v ≤ 64
    → GoodItems depth xs
    → GoodItems depth (push_back v xs)
unfolding push_back IsNormal nesting
push_back-GoodItems depth v nil n d g = ((n, tt), omega arith)
push_back-GoodItems depth v (cons x xs) n d ((nx, nxs), l) =
    let (m, b) = push_back-GoodItems depth v xs n d (nxs, omega arith) in ((nx, m), omega arith)
