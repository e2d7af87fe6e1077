-- ===== src/Registry/Json/Parser.antt =====
-- `JsonParser::parse_value` and `JsonParser::parse` of src/registry.cpp.
use mcp_observatory.Prelude.{
  ℕ, ltb, ◌==◌, if◌then◌else◌, zero, suc, ◌+◌, ◌*◌, Bytes, ascii, length, null, drop, starts_with,
  Outcome, ok, err, out_of_fuel, ◌>>=◌, ◌>>◌, require, String, true, false, none, some, [], ◌∷◌,
}
use mcp_observatory.Scan.{Dialect, skip_space, expect}
use mcp_observatory.Registry.Json.Model.{
  Json, Items, Fields, null_value, boolean, text, number, array, object, nil, end, emplace,
  push_back,
}
use mcp_observatory.Registry.Json.Utf8.{valid_utf8}
use mcp_observatory.Registry.Json.Strings.{parse_string}
use mcp_observatory.Registry.Json.Numbers.{parse_number}

-- only what is a space matters here
abbrev pub json_dialect : Dialect
json_dialect = record {
  newline_is_space = true;
  escaped_message = "";
  nesting_message = "";
  escape_message = "";
  colon_message = "";
}

abbrev pub skip_json_space : Bytes → Bytes
skip_json_space = skip_space json_dialect

abbrev pub maximum_json_depth : ℕ
maximum_json_depth = 64

-- `object.emplace(...)`, and its caller's failure
unfoldable pub add_field : Bytes → Json → Fields → Outcome Fields
add_field key value fields = elim (emplace key value fields) [
  | none ↦ err "duplicate JSON object member"
  | some f ↦ ok f
]

-- `parse_string` and `parse_number` as branches of `parse_value`
unfoldable pub text_value : Bytes × Bytes → Outcome (Json × Bytes)
text_value (s, rest) = ok (text s, rest)

unfoldable pub number_value : Bytes × Bytes → Outcome (Json × Bytes)
number_value (s, rest) = ok (number s, rest)

-- the branches behind those on the first byte
unfoldable pub parse_word : Bytes → Outcome (Json × Bytes)
unfolding number_value
parse_word s =
    if starts_with s (ascii "true")
    then ok (boolean true, drop 4 s)
    else if starts_with s (ascii "false")
    then ok (boolean false, drop 5 s)
    else if starts_with s (ascii "null")
    then ok (null_value, drop 4 s)
    else parse_number s >>= number_value

-- behind `{` or `[`: an empty container, or its first element
unfoldable pub open_container {ℓ} :
    {A : Type ℓ} → ℕ → A → (Bytes → Outcome (A × Bytes)) → Bytes → Outcome (A × Bytes)
open_container closing empty first [] = first []
open_container closing empty first (c ∷ s) = if c == closing then ok (empty, s) else first (c ∷ s)

-- behind an element: the end of the container, or a comma and the next element
unfoldable pub next_entry {ℓ} :
    {A : Type ℓ} → ℕ → String → A → (Bytes → Outcome (A × Bytes)) → Bytes → Outcome (A × Bytes)
next_entry closing message value next [] = err message
next_entry closing message value next (c ∷ s) =
    if c == closing
    then ok (value, s)
    else if c == b','
    then next (skip_json_space s)
    else err message

unfoldable pub array_value : Items × Bytes → Outcome (Json × Bytes)
array_value (xs, rest) = ok (array xs, rest)

unfoldable pub object_value : Fields × Bytes → Outcome (Json × Bytes)
object_value (fs, rest) = ok (object fs, rest)

-- the branches on the first byte of a value
unfoldable pub parse_token :
    (Bytes → Outcome (Fields × Bytes))
    → (Bytes → Outcome (Items × Bytes))
    → Bytes
    → Outcome (Json × Bytes)
unfolding text_value parse_word open_container array_value object_value
parse_token on_members on_items [] = err "missing JSON value"
parse_token on_members on_items (c ∷ s) =
    if c == b'"'
    then parse_string (c ∷ s) >>= text_value
    else if c == b'{'
    then open_container b'}' end on_members (skip_json_space s) >>= object_value
    else if c == b'['
    then open_container b']' nil on_items (skip_json_space s) >>= array_value
    else parse_word (c ∷ s)

-- `parse_value` at a depth, and the loops over the members of an object and the items of an array,
-- with what they have so far.
unfoldable mutual
  unfolding parse_token next_entry add_field

  pub parse_value : ℕ → ℕ → Bytes → Outcome (Json × Bytes)
  parse_value zero depth s = out_of_fuel
  parse_value (suc f) depth s =
      let value =
        parse_token (parse_fields f (depth + 1) end) (parse_items f (depth + 1) nil)
          (skip_json_space s) in
      if ltb maximum_json_depth depth then err "JSON nesting limit exceeded" else value

  pub parse_fields : ℕ → ℕ → Fields → Bytes → Outcome (Fields × Bytes)
  parse_fields zero depth fields s = out_of_fuel
  parse_fields (suc f) depth fields s = do
    (key, key_end) ← parse_string s
    value ← expect b':' "expected ':' after object key" (skip_json_space key_end)
    (child, value_end) ← parse_value f depth value
    more ← add_field key child fields
    next_entry b'}' "expected ',' or '}'" more (parse_fields f depth more)
        (skip_json_space value_end)

  pub parse_items : ℕ → ℕ → Items → Bytes → Outcome (Items × Bytes)
  parse_items zero depth items s = out_of_fuel
  parse_items (suc f) depth items s = do
    (child, value_end) ← parse_value f depth s
    next_entry b']' "expected ',' or ']'" (push_back child items)
        (parse_items f depth (push_back child items)) (skip_json_space value_end)

-- `parse`, behind the check of the encoding
unfoldable pub parse_document : Bytes → Outcome Json
parse_document input = do
  (value, rest) ← parse_value (suc (suc (2 * length input))) 0 (skip_json_space input)
  require (null (skip_json_space rest)) "unexpected data after JSON value"
  ok value

unfoldable pub parse_json : Bytes → Outcome Json
parse_json input = do require (valid_utf8 input) "invalid UTF-8 in JSON"; parse_document input
