-- ===== src/Registry/Json/Tokens.antt =====
-- The first byte of a value's canonical text, and the branch of `parse_value` that it takes.
use mcp_observatory.Prelude.{
  ℕ, ◌==◌, Bytes, ascii, equal, starts_with, Outcome, ok, ◌>>=◌, Bool, true, false, ◌||◌, [], ◌∷◌,
  ◌++◌, ◌≡◌, refl, arith,
}
use mcp_observatory.Scan.{skip_space, is_digit}
use mcp_observatory.Registry.Json.Model.{
  Items, Fields, null_value, boolean, text, array, object, nil, end,
}
use mcp_observatory.Registry.Json.Strings.{parse_string}
use mcp_observatory.Registry.Json.StringTrip.{parse_string-json_string}
use mcp_observatory.Registry.Json.Numbers.{number_sign, number_integer, parse_number}
use mcp_observatory.Registry.Json.Parser.{
  skip_json_space, text_value, number_value, parse_word, open_container, array_value, object_value,
  parse_token,
}
use mcp_observatory.Registry.Json.Writer.{json_string}

-- the bytes that a number begins with
unfoldable pub number_head : ℕ → Bool
number_head c = c == b'-' || is_digit c

unfoldable pub value_head : ℕ → Bool
unfolding number_head
value_head c =
    c == b'"' || c == b'{' || c == b'[' || c == b't' || c == b'f' || c == b'n' || number_head c

pub head_not_space : (c : ℕ) (s : Bytes) → value_head c ≡ true → skip_json_space (c ∷ s) ≡ c ∷ s
unfolding value_head skip_space
head_not_space c s h = ground arith

head_not_closing : (c : ℕ) → value_head c ≡ true → ((c == b']') ≡ false) × ((c == b'}') ≡ false)
unfolding value_head
head_not_closing c h = ground arith

pub number-head-nil : (r : Bytes) → parse_number [] ≡ ok ([], r) → ⊥
unfolding parse_number number_sign number_integer
number-head-nil r h = cc

pub number-head :
    (c : ℕ) (s : Bytes) (p : Bytes × Bytes) → parse_number (c ∷ s) ≡ ok p → number_head c ≡ true
unfolding parse_number number_sign number_integer number_head
number-head c s p h = ground arith

module _ (on_members : Bytes → Outcome (Fields × Bytes))
    (on_items : Bytes → Outcome (Items × Bytes)) where
  pub token-null :
      (rest : Bytes)
      → parse_token on_members on_items (skip_json_space (ascii "null" ++ rest))
        ≡ ok (null_value, rest)
  unfolding parse_token skip_space ascii starts_with equal parse_word
  token-null rest = refl

  pub token-true :
      (rest : Bytes)
      → parse_token on_members on_items (skip_json_space (ascii "true" ++ rest))
        ≡ ok (boolean true, rest)
  unfolding parse_token skip_space ascii starts_with equal parse_word
  token-true rest = refl

  pub token-false :
      (rest : Bytes)
      → parse_token on_members on_items (skip_json_space (ascii "false" ++ rest))
        ≡ ok (boolean false, rest)
  unfolding parse_token skip_space ascii starts_with equal parse_word
  token-false rest = refl

  opens_string :
      (s rest : Bytes)
      → parse_token on_members on_items (skip_json_space (json_string s ++ rest))
        ≡ (parse_string (json_string s ++ rest) >>= text_value)
  unfolding parse_token skip_space json_string
  opens_string s rest = refl

  pub token-text :
      (s rest : Bytes)
      → parse_token on_members on_items (skip_json_space (json_string s ++ rest))
        ≡ ok (text s, rest)
  unfolding text_value
  token-text s rest = rw (opens_string s rest, parse_string-json_string s rest) refl

  pub token-empty_array :
      (rest : Bytes)
      → parse_token on_members on_items (skip_json_space (b'[' ∷ b']' ∷ rest))
        ≡ ok (array nil, rest)
  unfolding parse_token skip_space open_container array_value
  token-empty_array rest = refl

  pub token-empty_object :
      (rest : Bytes)
      → parse_token on_members on_items (skip_json_space (b'{' ∷ b'}' ∷ rest))
        ≡ ok (object end, rest)
  unfolding parse_token skip_space open_container object_value
  token-empty_object rest = refl

  opens_array :
      (t : Bytes)
      → parse_token on_members on_items (skip_json_space (b'[' ∷ t))
        ≡ (open_container b']' nil on_items (skip_json_space t) >>= array_value)
  unfolding parse_token skip_space
  opens_array t = refl

  first_item :
      (c : ℕ) (s : Bytes)
      → value_head c ≡ true
      → open_container b']' nil on_items (c ∷ s) ≡ on_items (c ∷ s)
  unfolding open_container
  first_item c s h = rw (head_not_closing c h).0 refl

  pub token-array :
      (c : ℕ) (s : Bytes)
      → value_head c ≡ true
      → parse_token on_members on_items (skip_json_space (b'[' ∷ c ∷ s))
        ≡ (on_items (c ∷ s) >>= array_value)
  token-array c s h = rw (opens_array (c ∷ s), head_not_space c s h, first_item c s h) refl

  pub token-object :
      (k rest : Bytes)
      → parse_token on_members on_items (skip_json_space (b'{' ∷ json_string k ++ rest))
        ≡ (on_members (json_string k ++ rest) >>= object_value)
  unfolding parse_token skip_space open_container json_string
  token-object k rest = refl

  pub opens_word :
      (c : ℕ) (s : Bytes)
      → number_head c ≡ true
      → parse_token on_members on_items (c ∷ s) ≡ parse_word (c ∷ s)
  unfolding parse_token number_head
  opens_word c s h = ground arith

not_word : (w c : ℕ) (u s : Bytes) → (c == w) ≡ false → starts_with (c ∷ s) (w ∷ u) ≡ false
unfolding starts_with equal
not_word w c u s h = rw h refl

number_head-word :
    (c : ℕ)
    → number_head c ≡ true
    → ((c == b't') ≡ false) × ((c == b'f') ≡ false) × ((c == b'n') ≡ false)
unfolding number_head
number_head-word c h = ground arith

pub word_number :
    (c : ℕ) (s : Bytes)
    → number_head c ≡ true
    → parse_word (c ∷ s) ≡ (parse_number (c ∷ s) >>= number_value)
unfolding parse_word ascii
word_number c s h =
    let (t, f, n) = number_head-word c h in
    rw
      (
        not_word b't' c (ascii "rue") s t,
        not_word b'f' c (ascii "alse") s f,
        not_word b'n' c (ascii "ull") s n,
      )
      refl

pub number-value_head : (c : ℕ) → number_head c ≡ true → value_head c ≡ true
unfolding value_head
number-value_head c h = ground arith
