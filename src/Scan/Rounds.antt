-- ===== src/Scan/Rounds.antt =====
-- The member loop keeps an invariant, ends within its fuel, and leaves the end of its text.
use mcp_observatory.Prelude.{
  ℕ, ltb, ◌==◌, Bool-cases, ltb→lt, Bytes, length, Outcome, Ensures, Ensures-bind, Ensures-weaken,
  Ensures-if, holds, rejected, zero, suc, ◌^◌, ◌<◌, String, inl, inr, [], ◌∷◌, arith,
}
use mcp_observatory.Scan.Tail.{
  IsTail, here, there, IsRest, behind, IsTail-trans, IsRest-IsTail, IsRest-left, IsRest-right,
  IsRest-trans, length-IsRest, length-IsTail,
}
use mcp_observatory.Scan.Lexer.{
  Dialect, skip_space, span_digits, uint32_value, parse_uint32, is_digit, decimal,
}
use mcp_observatory.Scan.Members.{next_element, members, first_member, object_body}
use mcp_observatory.Scan.Skip.{fuel_for}
use mcp_observatory.Scan.Fuel.{skip_space-IsTail, expect-Shortens, plain_string-Advances}

module _ {ℓ} {S : Type ℓ} (P : S → Type ℓ) where
  -- `P` holds of the state, and the text left is an end of `s`.
  abbrev pub Keeps : Bytes → Outcome (S × Bytes) → Type ℓ
  Keeps s r = Ensures (λ p. P p.0 × IsTail p.1 s) r

  abbrev pub Moves : Bytes → Outcome (S × Bytes) → Type ℓ
  Moves s r = Ensures (λ p. P p.0 × IsRest p.1 s) r

  pub next_element-Moves :
      (dialect : Dialect) (closing : ℕ) (message : String) (again : S → Bytes → Outcome (S × Bytes))
      (state : S) (t : Bytes) {s : Bytes}
      → P state
      → IsTail t s
      → ((u : Bytes) → IsRest u s → Moves u (again state u))
      → Moves s (next_element dialect closing message again state t)
  unfolding next_element
  next_element-Moves dialect closing message again state [] h p k = rejected
  next_element-Moves dialect closing message again state (c ∷ t) h p k =
      let q = IsRest-left (skip_space-IsTail dialect t) (IsRest-right (behind here) p) in
      Ensures-if (c == closing) (holds (h, IsRest-right (behind here) p)) (
        Ensures-if (c == b',')
          (Ensures-weaken (k (skip_space dialect t) q) λ _ x. (x.0, IsRest-trans x.1 q)) rejected)

  pub members-Moves :
      (f : ℕ) (dialect : Dialect) (colon_message end_message : String)
      (member : Bytes → S → Bytes → Outcome (S × Bytes)) (state : S) (s : Bytes)
      → ((key : Bytes) (x : S) (t : Bytes) → P x → IsTail t s → Keeps t (member key x t))
      → P state
      → length s < f
      → Moves s (members f dialect colon_message end_message member state s)
  unfolding members
  members-Moves zero dialect colon_message end_message member state s k h l = absurd (omega arith)
  members-Moves (suc f) dialect colon_message end_message member state s k h l =
      Ensures-bind (plain_string-Advances dialect s) λ (key, t) p.
        Ensures-bind (expect-Shortens b':' colon_message (skip_space dialect t)) λ u q.
          let read = IsRest-trans (IsRest-right q (skip_space-IsTail dialect t)) p in
          let value = IsRest-left (skip_space-IsTail dialect u) read in
          Ensures-bind (k key state (skip_space dialect u) h (IsRest-IsTail value))
            λ (x, v) (h', j).
              next_element-Moves dialect b'}' end_message
                (members f dialect colon_message end_message member) x (skip_space dialect v) h'
                (IsTail-trans (skip_space-IsTail dialect v) (IsTail-trans j (IsRest-IsTail value)))
                (λ w y.
                  members-Moves f dialect colon_message end_message member x w
                    (λ key' z t' h'' j'. k key' z t' h'' (IsTail-trans j' (IsRest-IsTail y))) h'
                    (omega (arith, length-IsRest y)))

  pub first_member-Moves :
      (missing : String) (loop : Bytes → Outcome (S × Bytes)) (s : Bytes)
      → Moves s (loop s)
      → Moves s (first_member missing loop s)
  unfolding first_member
  first_member-Moves missing loop [] h = h
  first_member-Moves missing loop (c ∷ s) h = Ensures-if (c == b'}') rejected h

  pub object_body-Moves :
      (dialect : Dialect) (missing colon_message end_message : String)
      (member : Bytes → S → Bytes → Outcome (S × Bytes)) (state : S) (s : Bytes)
      → ((key : Bytes) (x : S) (t : Bytes) → P x → IsTail t s → Keeps t (member key x t))
      → P state
      → Moves s (object_body dialect missing colon_message end_message member state s)
  unfolding object_body
  object_body-Moves dialect missing colon_message end_message member state s k h =
      let start = skip_space-IsTail dialect s in
      Ensures-weaken
        (first_member-Moves missing _ (skip_space dialect s) (
          members-Moves (fuel_for s) dialect colon_message end_message member state
            (skip_space dialect s) (λ key x t h' j. k key x t h' (IsTail-trans j start)) h
            (omega (arith, length-IsTail start))))
        λ _ x. (x.0, IsRest-right x.1 start)

pub span_digits-IsTail : (s : Bytes) → IsTail (span_digits s).1 s
unfolding span_digits
span_digits-IsTail [] = here
span_digits-IsTail (c ∷ s) = elim (Bool-cases (is_digit c)) [
  | inl d ↦ rw d (there (span_digits-IsTail s))
  | inr e ↦ rw e here
]

-- A number that was read fits in 32 bits.
pub parse_uint32-Keeps :
    (missing too_large : String) (s : Bytes)
    → Keeps (λ n. n < 2 ^ 32) s (parse_uint32 missing too_large s)
unfolding parse_uint32
parse_uint32-Keeps missing too_large s = value (span_digits s) (span_digits-IsTail s)
  where
    value :
        (p : Bytes × Bytes)
        → IsTail p.1 s
        → Keeps (λ n. n < 2 ^ 32) s (uint32_value missing too_large p)
    value ([], rest) t = rejected
    value (d ∷ ds, rest) t = elim (Bool-cases (ltb (decimal 0 (d ∷ ds)) (2 ^ 32))) [
      | inl small ↦ rw small (holds (ltb→lt _ _ small, t))
      | inr large ↦ rw large rejected
    ]
