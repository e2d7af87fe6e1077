-- ===== src/Registry/Json/Writer.antt =====
-- `append_json_string` and `canonical_json` of src/registry.cpp, as the text that they append.
use mcp_observatory.Prelude.{
  ℕ, ltb, ◌==◌, if◌then◌else◌, ◌+◌, ◌-◌, ◌/◌, ◌%◌, Bytes, ascii, true, false, [], ◌∷◌, ◌++◌, ◌||◌,
}
use mcp_observatory.Registry.Json.Model.{
  Json, Items, Fields, null_value, boolean, text, number, array, object, nil, cons, end, field,
}

-- `hex[n]`, in lower case
abbrev pub lower_hex : ℕ → ℕ
lower_hex n = if ltb n 10 then b'0' + n else b'a' + (n - 10)

abbrev pub behind_backslash : ℕ → Bytes
behind_backslash c = b'\\' ∷ c ∷ []

-- what the `switch` appends for a byte
unfoldable pub escaped_byte : ℕ → Bytes
escaped_byte c =
    if c == b'"' || c == b'\\'
    then behind_backslash c
    else if c == 8
    then behind_backslash b'b'
    else if c == 12
    then behind_backslash b'f'
    else if c == 10
    then behind_backslash b'n'
    else if c == 13
    then behind_backslash b'r'
    else if c == 9
    then behind_backslash b't'
    else if ltb c 0x20
    then b'\\' ∷ b'u' ∷ b'0' ∷ b'0' ∷ lower_hex (c / 16) ∷ lower_hex (c % 16) ∷ []
    else c ∷ []

unfoldable pub escaped_text : Bytes → Bytes
unfolding escaped_byte
escaped_text [] = []
escaped_text (c ∷ s) = escaped_byte c ++ escaped_text s

unfoldable pub json_string : Bytes → Bytes
unfolding escaped_text
json_string s = b'"' ∷ escaped_text s ++ b'"' ∷ []

-- The later elements of a container have a comma before them.
unfoldable mutual
  unfolding json_string

  pub canonical_json : Json → Bytes
  canonical_json null_value = ascii "null"
  canonical_json (boolean true) = ascii "true"
  canonical_json (boolean false) = ascii "false"
  canonical_json (text s) = json_string s
  canonical_json (number s) = s
  canonical_json (array nil) = b'[' ∷ b']' ∷ []
  canonical_json (array (cons x xs)) = b'[' ∷ canonical_json x ++ (more_items xs ++ b']' ∷ [])
  canonical_json (object end) = b'{' ∷ b'}' ∷ []
  canonical_json (object (field k v fs)) =
      b'{' ∷ json_string k ++ (b':' ∷ canonical_json v ++ (more_fields fs ++ b'}' ∷ []))

  pub more_items : Items → Bytes
  more_items nil = []
  more_items (cons x xs) = b',' ∷ canonical_json x ++ more_items xs

  pub more_fields : Fields → Bytes
  more_fields end = []
  more_fields (field k v fs) = b',' ∷ json_string k ++ (b':' ∷ canonical_json v ++ more_fields fs)
