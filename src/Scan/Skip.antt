-- ===== src/Scan/Skip.antt =====
-- `skip_value`: an unknown JSON value is skipped, nested to a bounded depth.
use mcp_observatory.Prelude.{
  ℕ, ltb, ◌==◌, if◌then◌else◌, Bytes, length, Outcome, ok, err, out_of_fuel, zero, suc, ◌+◌, ◌*◌,
  String, str_eq, Bool, false, ◌||◌, [], ◌∷◌, ◌>>=◌,
}
use mcp_observatory.Scan.Lexer.{Dialect, is_space, skip_space, expect, string_body, skip_string}

-- the byte that ends a number, a literal or any other bare word
unfoldable pub ends_scalar : Dialect → ℕ → Bool
unfolding is_space
ends_scalar dialect c = c == b',' || c == b'}' || c == b']' || is_space dialect c

unfoldable pub drop_scalar : Dialect → Bytes → Bytes
unfolding ends_scalar
drop_scalar dialect [] = []
drop_scalar dialect (c ∷ s) = if ends_scalar dialect c then c ∷ s else drop_scalar dialect s

unfoldable pub skip_scalar : Dialect → ℕ → Bytes → Outcome Bytes
unfolding drop_scalar ends_scalar
skip_scalar dialect c s =
    if ends_scalar dialect c then err "invalid JSON value" else ok (drop_scalar dialect s)

-- behind an opening bracket: an empty container, or its first element
unfoldable pub enter : ℕ → (Bytes → Outcome Bytes) → Bytes → Outcome Bytes
enter closing first [] = first []
enter closing first (c ∷ s) = if c == closing then ok s else first (c ∷ s)

-- behind an element: the closing bracket, or a comma and the next element
unfoldable pub continue : Dialect → ℕ → String → (Bytes → Outcome Bytes) → Bytes → Outcome Bytes
unfolding skip_space
continue dialect closing message next [] = err message
continue dialect closing message next (c ∷ s) =
    if c == closing then ok s else if c == b',' then next (skip_space dialect s) else err message

-- the branches on the first byte of a value
unfoldable pub skip_token :
    Dialect → (Bytes → Outcome Bytes) → (Bytes → Outcome Bytes) → Bytes → Outcome Bytes
unfolding string_body skip_space enter skip_scalar
skip_token dialect members items [] = err "missing JSON value"
skip_token dialect members items (c ∷ s) =
    if c == b'"'
    then string_body dialect false s
    else if c == b'{'
    then enter b'}' members (skip_space dialect s)
    else if c == b'['
    then enter b']' items (skip_space dialect s)
    else skip_scalar dialect c s

-- `error.empty() ? message : error`
unfoldable pub name_failure : String → Outcome Bytes → Outcome Bytes
name_failure message (ok s) = ok s
name_failure message (err e) = if str_eq e "" then err message else err e
name_failure message out_of_fuel = out_of_fuel

-- `skip_value` at a depth, with the loop over an object's members and that over an array's items;
-- the loops stand one level deeper.
unfoldable mutual
  unfolding skip_token skip_space skip_string name_failure expect continue

  pub skip_value : ℕ → Dialect → ℕ → ℕ → Bytes → Outcome Bytes
  skip_value zero dialect limit depth s = out_of_fuel
  skip_value (suc f) dialect limit depth s =
      let value =
        skip_token dialect (skip_members f dialect limit (depth + 1))
          (skip_items f dialect limit (depth + 1)) (skip_space dialect s) in
      if ltb limit depth then err dialect.nesting_message else value

  pub skip_members : ℕ → Dialect → ℕ → ℕ → Bytes → Outcome Bytes
  skip_members zero dialect limit depth s = out_of_fuel
  skip_members (suc f) dialect limit depth s = do
    key_end ← name_failure "object key must be a string" (skip_string dialect s)
    value ← expect b':' dialect.colon_message (skip_space dialect key_end)
    value_end ← skip_value f dialect limit depth value
    continue dialect b'}' "expected ',' or '}' in object" (skip_members f dialect limit depth)
        (skip_space dialect value_end)

  pub skip_items : ℕ → Dialect → ℕ → ℕ → Bytes → Outcome Bytes
  skip_items zero dialect limit depth s = out_of_fuel
  skip_items (suc f) dialect limit depth s = do
    value_end ← skip_value f dialect limit depth s
    continue dialect b']' "expected ',' or ']' in array" (skip_items f dialect limit depth)
        (skip_space dialect value_end)

-- Enough for any text of this length: at most two calls for each byte.
abbrev pub fuel_for : Bytes → ℕ
fuel_for s = suc (suc (2 * length s))

-- `skip_value` as its callers see it
unfoldable pub skip_json : Dialect → ℕ → ℕ → Bytes → Outcome Bytes
unfolding skip_value
skip_json dialect limit depth s = skip_value (fuel_for s) dialect limit depth s
