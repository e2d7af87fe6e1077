-- ===== src/Scan/Members.antt =====
-- The loop over the members of an object, which every record parser of the three files has.
use mcp_observatory.Prelude.{
  ℕ, ◌==◌, if◌then◌else◌, Bytes, Outcome, ok, err, out_of_fuel, zero, suc, String, [], ◌∷◌, ◌>>=◌,
}
use mcp_observatory.Scan.Skip.{fuel_for}
use mcp_observatory.Scan.Lexer.{Dialect, skip_space, expect, plain_string}

module _ {ℓ} {S : Type ℓ} where
  -- behind an element: the closing bracket, or a comma and the next element
  unfoldable pub next_element :
      Dialect → ℕ → String → (S → Bytes → Outcome (S × Bytes)) → S → Bytes → Outcome (S × Bytes)
  next_element dialect closing message again state [] = err message
  next_element dialect closing message again state (c ∷ s) =
      if c == closing
      then ok (state, s)
      else if c == b','
      then again state (skip_space dialect s)
      else err message

  -- One round for each member: its key, the colon, and `member`, which reads the value by the key.
  unfoldable pub members :
      ℕ
      → Dialect
      → String
      → String
      → (Bytes → S → Bytes → Outcome (S × Bytes))
      → S
      → Bytes
      → Outcome (S × Bytes)
  members zero dialect colon_message end_message member state s = out_of_fuel
  members (suc f) dialect colon_message end_message member state s = do
    (key, key_end) ← plain_string dialect s
    value ← expect b':' colon_message (skip_space dialect key_end)
    (state', value_end) ← member key state (skip_space dialect value)
    next_element dialect b'}' end_message (members f dialect colon_message end_message member)
        state' (skip_space dialect value_end)

  -- behind the opening brace; an object with no members lacks what it needs
  unfoldable pub first_member : String → (Bytes → Outcome (S × Bytes)) → Bytes → Outcome (S × Bytes)
  first_member missing loop [] = loop []
  first_member missing loop (c ∷ s) = if c == b'}' then err missing else loop (c ∷ s)

  -- The members of an object, from behind its opening brace to behind its closing one.
  unfoldable pub object_body :
      Dialect
      → String
      → String
      → String
      → (Bytes → S → Bytes → Outcome (S × Bytes))
      → S
      → Bytes
      → Outcome (S × Bytes)
  object_body dialect missing colon_message end_message member state s =
      first_member missing (members (fuel_for s) dialect colon_message end_message member state)
        (skip_space dialect s)
