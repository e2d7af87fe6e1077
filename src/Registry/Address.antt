-- ===== src/Registry/Address.antt =====
-- Addresses: `lower_ascii`, `percent_encode`, `parse_registry_url`, `registry_same_origin` and
-- `registry_api_url` of src/registry.cpp.
use mcp_observatory.Prelude.{
  ℕ, ltb, ◌==◌, within, if◌then◌else◌, ◌+◌, ◌-◌, ◌/◌, ◌%◌, Bytes, ascii, equal, Bool, ◌&&◌, ◌||◌,
  Option, none, some, [], ◌∷◌, ◌++◌,
}

abbrev pub to_lower : ℕ → ℕ
to_lower c = if within b'A' b'Z' c then (c - b'A') + b'a' else c

unfoldable pub lower_ascii : Bytes → Bytes
lower_ascii [] = []
lower_ascii (c ∷ s) = to_lower c ∷ lower_ascii s

unfoldable pub is_unreserved : ℕ → Bool
is_unreserved c =
    within b'a' b'z' c
    || within b'A' b'Z' c
    || within b'0' b'9' c
    || c == b'-'
    || c == b'.'
    || c == b'_'
    || c == b'~'

-- `hex[n]`
abbrev pub hex : ℕ → ℕ
hex n = if ltb n 10 then b'0' + n else b'A' + (n - 10)

unfoldable pub percent_encode : Bytes → Bytes
unfolding is_unreserved
percent_encode [] = []
percent_encode (c ∷ s) =
    let rest = percent_encode s in
    if is_unreserved c then c ∷ rest else b'%' ∷ hex (c / 16) ∷ hex (c % 16) ∷ rest

pub record RegistryUrl : Type 0 where
  pub scheme : Bytes
  pub host : Bytes
  pub port : ℕ
  pub base_path : Bytes
  pub normalized : Bytes

unfoldable pub registry_same_origin : RegistryUrl → RegistryUrl → Bool
registry_same_origin left right =
    equal left.scheme right.scheme && equal left.host right.host && left.port == right.port

-- one parameter of the query, behind `?` or `&`
abbrev parameter : ℕ → Bytes → Bytes → Bytes
parameter separator key value = separator ∷ key ++ percent_encode value

unfoldable pub registry_api_url : RegistryUrl → Option Bytes → Option Bytes → Bytes
registry_api_url base cursor updated_since =
    let path = base.normalized ++ ascii "/v0.1/servers" in
    elim updated_since [
      | none ↦ elim cursor [ none ↦ path | some c ↦ path ++ parameter b'?' (ascii "cursor=") c ]
      | some u ↦
          let dated = path ++ parameter b'?' (ascii "updated_since=") u in
          elim cursor [ none ↦ dated | some c ↦ dated ++ parameter b'&' (ascii "cursor=") c ]
    ]
