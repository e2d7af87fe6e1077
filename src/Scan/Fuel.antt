-- ===== src/Scan/Fuel.antt =====
-- `skip_value` ends within its fuel, and leaves the end of the text it was given.
use mcp_observatory.Prelude.{
  ℕ, ltb, ◌==◌, Bool-cases, Bytes, length, Outcome, Ensures, Ensures-bind, Ensures-weaken,
  Ensures-if, holds, rejected, zero, suc, ◌+◌, ◌*◌, ◌<◌, String, str_eq, inl, inr, Bool, true,
  false, ◌||◌, [], ◌∷◌, arith,
}
use mcp_observatory.Scan.Tail.{
  IsTail, here, there, IsRest, behind, IsTail-trans, IsRest-IsTail, IsRest-left, IsRest-right,
  IsRest-trans, length-IsTail, length-IsRest,
}
use mcp_observatory.Scan.Lexer.{
  Dialect, is_space, skip_space, expect, plain_body, plain_string, string_body, skip_string,
}
use mcp_observatory.Scan.Skip.{
  ends_scalar, drop_scalar, skip_scalar, enter, continue, skip_token, name_failure, skip_value,
  skip_members, skip_items, fuel_for, skip_json,
}

-- A step that reads at least one byte.
abbrev pub Advances {ℓ} : {A : Type ℓ} → Bytes → Outcome (A × Bytes) → Type ℓ
Advances s r = Ensures (λ p. IsRest p.1 s) r

abbrev pub Shortens : Bytes → Outcome Bytes → Type 0
Shortens s r = Ensures (λ t. IsRest t s) r

module _ (dialect : Dialect) where
  pub skip_space-IsTail : (s : Bytes) → IsTail (skip_space dialect s) s
  unfolding skip_space
  skip_space-IsTail [] = here
  skip_space-IsTail (c ∷ s) = elim (Bool-cases (is_space dialect c)) [
    | inl blank ↦ rw blank (there (skip_space-IsTail s))
    | inr solid ↦ rw solid here
  ]

  pub plain_body-Advances : (s : Bytes) → Advances s (plain_body dialect s)
  unfolding plain_body
  plain_body-Advances [] = rejected
  plain_body-Advances (c ∷ s) = Ensures-if (c == b'"') (holds (behind here)) (
      Ensures-if (c == b'\\' || ltb c 0x20) rejected
        (Ensures-bind (plain_body-Advances s) λ _ p. holds (behind (IsRest-IsTail p))))

  pub string_body-Shortens :
      (escaped : Bool) (s : Bytes) → Shortens s (string_body dialect escaped s)
  unfolding string_body
  string_body-Shortens true [] = rejected
  string_body-Shortens false [] = rejected
  string_body-Shortens true (c ∷ s) =
      Ensures-weaken (string_body-Shortens false s) λ _ p. behind (IsRest-IsTail p)
  string_body-Shortens false (c ∷ s) = Ensures-if (c == b'"') (holds (behind here)) (
      Ensures-if (ltb c 0x20) rejected
        (Ensures-weaken (string_body-Shortens (c == b'\\') s) λ _ p. behind (IsRest-IsTail p)))

  pub drop_scalar-IsTail : (s : Bytes) → IsTail (drop_scalar dialect s) s
  unfolding drop_scalar
  drop_scalar-IsTail [] = here
  drop_scalar-IsTail (c ∷ s) = elim (Bool-cases (ends_scalar dialect c)) [
    | inl stop ↦ rw stop here
    | inr more ↦ rw more (there (drop_scalar-IsTail s))
  ]

pub expect-Shortens : (byte : ℕ) (message : String) (s : Bytes) → Shortens s (expect byte message s)
unfolding expect
expect-Shortens byte message [] = rejected
expect-Shortens byte message (c ∷ s) = Ensures-if (c == byte) (holds (behind here)) rejected

pub plain_string-Advances : (dialect : Dialect) (s : Bytes) → Advances s (plain_string dialect s)
unfolding plain_string
plain_string-Advances dialect s =
    Ensures-bind (expect-Shortens b'"' _ s)
      λ t p. Ensures-weaken (plain_body-Advances dialect t) λ _ q. IsRest-trans q p

skip_string-Shortens : (dialect : Dialect) (s : Bytes) → Shortens s (skip_string dialect s)
unfolding skip_string
skip_string-Shortens dialect s =
    Ensures-bind (expect-Shortens b'"' _ s)
      λ t p. Ensures-weaken (string_body-Shortens dialect false t) λ _ q. IsRest-trans q p

skip_scalar-Shortens :
    (dialect : Dialect) (c : ℕ) (s : Bytes) → Shortens (c ∷ s) (skip_scalar dialect c s)
unfolding skip_scalar
skip_scalar-Shortens dialect c s =
    Ensures-if (ends_scalar dialect c) rejected (holds (behind (drop_scalar-IsTail dialect s)))

name_failure-Shortens :
    (message : String) {s : Bytes} {r : Outcome Bytes}
    → Shortens s r
    → Shortens s (name_failure message r)
unfolding name_failure
name_failure-Shortens message (holds h) = holds h
name_failure-Shortens message (rejected {e}) = Ensures-if (str_eq e "") rejected rejected

-- A loop that is only entered at rests of `s`, and reads from there on.
abbrev Continues : Bytes → (Bytes → Outcome Bytes) → Type 0
Continues s loop = (t : Bytes) → IsRest t s → Shortens t (loop t)

enter-Shortens :
    (closing : ℕ) (loop : Bytes → Outcome Bytes) (t : Bytes) {s : Bytes}
    → IsRest t s
    → Continues s loop
    → Shortens s (enter closing loop t)
unfolding enter
enter-Shortens closing loop [] p h = Ensures-weaken (h [] p) λ _ q. IsRest-trans q p
enter-Shortens closing loop (c ∷ t) p h =
    Ensures-if (c == closing) (holds (IsRest-trans (behind here) p))
      (Ensures-weaken (h (c ∷ t) p) λ _ q. IsRest-trans q p)

continue-Shortens :
    (dialect : Dialect) (closing : ℕ) (message : String) (loop : Bytes → Outcome Bytes) (t : Bytes)
    {s : Bytes}
    → IsTail t s
    → Continues s loop
    → Shortens s (continue dialect closing message loop t)
unfolding continue
continue-Shortens dialect closing message loop [] p h = rejected
continue-Shortens dialect closing message loop (c ∷ t) p h =
    let q = IsRest-left (skip_space-IsTail dialect t) (IsRest-right (behind here) p) in
    Ensures-if (c == closing) (holds (IsRest-right (behind here) p)) (
      Ensures-if (c == b',') (Ensures-weaken (h (skip_space dialect t) q) λ _ k. IsRest-trans k q)
        rejected)

skip_token-Shortens :
    (dialect : Dialect) (members items : Bytes → Outcome Bytes) (s : Bytes)
    → Continues s members
    → Continues s items
    → Shortens s (skip_token dialect members items s)
unfolding skip_token
skip_token-Shortens dialect members items [] h k = rejected
skip_token-Shortens dialect members items (c ∷ s) h k =
    let q = IsRest-left (skip_space-IsTail dialect s) (behind here) in
    Ensures-if (c == b'"')
      (Ensures-weaken (string_body-Shortens dialect false s) λ _ p. behind (IsRest-IsTail p))
      (Ensures-if (c == b'{') (enter-Shortens b'}' members _ q h) (
        Ensures-if (c == b'[') (enter-Shortens b']' items _ q k)
          (skip_scalar-Shortens dialect c s)))

-- One induction on the fuel; a loop is entered with a byte less than its container.
mutual
  unfolding skip_value

  skip_value-Shortens :
      (f : ℕ) (dialect : Dialect) (limit depth : ℕ) (s : Bytes)
      → 2 * length s < f
      → Shortens s (skip_value f dialect limit depth s)
  skip_value-Shortens zero dialect limit depth s h = absurd (omega arith)
  skip_value-Shortens (suc f) dialect limit depth s h = Ensures-if (ltb limit depth) rejected (
      Ensures-weaken
        (skip_token-Shortens dialect _ _ (skip_space dialect s)
          (λ t p.
            skip_members-Shortens f dialect limit (depth + 1) t
              (omega (arith, length-IsRest p, length-IsTail (skip_space-IsTail dialect s))))
          (λ t p.
            skip_items-Shortens f dialect limit (depth + 1) t
              (omega (arith, length-IsRest p, length-IsTail (skip_space-IsTail dialect s)))))
        λ _ q. IsRest-right q (skip_space-IsTail dialect s))

  skip_members-Shortens :
      (f : ℕ) (dialect : Dialect) (limit depth : ℕ) (s : Bytes)
      → 2 * length s + 1 < f
      → Shortens s (skip_members f dialect limit depth s)
  skip_members-Shortens zero dialect limit depth s h = absurd (omega arith)
  skip_members-Shortens (suc f) dialect limit depth s h =
      Ensures-bind (name_failure-Shortens _ (skip_string-Shortens dialect s)) λ t p.
        Ensures-bind (expect-Shortens b':' _ (skip_space dialect t)) λ u q.
          let read = IsRest-trans (IsRest-right q (skip_space-IsTail dialect t)) p in
          Ensures-bind
            (skip_value-Shortens f dialect limit depth u (omega (arith, length-IsRest read)))
            λ v k.
              let left =
                IsTail-trans (skip_space-IsTail dialect v) (IsRest-IsTail (IsRest-trans k read)) in
              continue-Shortens dialect b'}' _ _ (skip_space dialect v) left (λ w x.
                skip_members-Shortens f dialect limit depth w (omega (arith, length-IsRest x)))

  skip_items-Shortens :
      (f : ℕ) (dialect : Dialect) (limit depth : ℕ) (s : Bytes)
      → 2 * length s + 1 < f
      → Shortens s (skip_items f dialect limit depth s)
  skip_items-Shortens zero dialect limit depth s h = absurd (omega arith)
  skip_items-Shortens (suc f) dialect limit depth s h =
      Ensures-bind (skip_value-Shortens f dialect limit depth s (omega arith)) λ v k.
        continue-Shortens dialect b']' _ _ (skip_space dialect v)
          (IsTail-trans (skip_space-IsTail dialect v) (IsRest-IsTail k))
          (λ w x. skip_items-Shortens f dialect limit depth w (omega (arith, length-IsRest x)))

-- On every text `skip_value` ends: it fails with a message, or leaves a proper end of the text.
-- The fuel that the model hands out is never used up.
pub skip_json-Shortens :
    (dialect : Dialect) (limit depth : ℕ) (s : Bytes) → Shortens s (skip_json dialect limit depth s)
unfolding skip_json
skip_json-Shortens dialect limit depth s =
    skip_value-Shortens (fuel_for s) dialect limit depth s (omega arith)
