-- ===== src/Registry/Url.antt =====
-- `parse_registry_url` of src/registry.cpp, in the order of its tests.
use mcp_observatory.Prelude.{
  ℕ, ltb, leb, ◌==◌, if◌then◌else◌, zero, suc, ◌+◌, ◌/◌, ◌%◌, Bytes, ascii, length, null, drop, all,
  equal, has_byte, until_byte, front, back, starts_with, Outcome, ok, err, require, ◌>>=◌, ◌>>◌,
  Bool, not, ◌&&◌, ◌||◌, Option, none, some, [], ◌∷◌, ◌++◌,
}
use mcp_observatory.Scan.{is_digit, decimal}
use mcp_observatory.Registry.Address.{RegistryUrl, lower_ascii}

-- what stands before the first `://`, and behind it
unfoldable pub split_scheme : Bytes → Option (Bytes × Bytes)
split_scheme [] = none
split_scheme (c ∷ s) =
    let later = split_scheme s in
    if starts_with (c ∷ s) (ascii "://")
    then some ([], drop 3 (c ∷ s))
    else elim later [ none ↦ none | some (scheme, rest) ↦ some (c ∷ scheme, rest) ]

abbrev ends_authority : ℕ → Bool
ends_authority c = c == b'/' || c == b'?'

-- the authority, and from the first `/` or `?` on
unfoldable pub split_authority : Bytes → Bytes × Bytes
split_authority [] = ([], [])
split_authority (c ∷ s) =
    let (authority, rest) = split_authority s in
    if ends_authority c then ([], c ∷ s) else (c ∷ authority, rest)

-- what stands behind the first `c`
abbrev pub behind_byte : ℕ → Bytes → Bytes
behind_byte c s = drop (suc (length (until_byte c s))) s

-- host and port text of `[...]` and what follows
unfoldable pub bracketed_host : Bytes → Outcome (Bytes × Bytes)
bracketed_host authority = do
  require (has_byte b']' authority) "invalid bracketed registry host"
  require (null (behind_byte b']' authority) || front (behind_byte b']' authority) == b':')
      "invalid registry URL authority"
  ok (lower_ascii (until_byte b']' authority ++ b']' ∷ []), drop 1 (behind_byte b']' authority))

unfoldable pub plain_host : Bytes → Outcome (Bytes × Bytes)
plain_host authority =
    if not (has_byte b':' authority)
    then ok (lower_ascii authority, [])
    else require (not (has_byte b':' (behind_byte b':' authority)))
        "IPv6 registry hosts require brackets"
      >> ok (lower_ascii (until_byte b':' authority), behind_byte b':' authority)

unfoldable pub split_host : Bytes → Outcome (Bytes × Bytes)
split_host authority =
    if front authority == b'[' then bracketed_host authority else plain_host authority

abbrev pub default_port : Bytes → ℕ
default_port scheme = if equal scheme (ascii "https") then 443 else 80

unfoldable pub parse_port : Bytes → Bytes → Bytes → Outcome ℕ
parse_port scheme authority port_text =
    let parsed = decimal 0 port_text in
    if null port_text
    then require (not (back authority == b':')) "invalid registry URL port"
      >> ok (default_port scheme)
    else require (all is_digit port_text && leb 1 parsed && leb parsed 65535)
        "invalid registry URL port"
      >> ok parsed

abbrev pub is_local : Bytes → Bool
is_local host =
    equal host (ascii "localhost") || equal host (ascii "127.0.0.1") || equal host (ascii "[::1]")

-- the slashes at the end, all of them
unfoldable pub without_slashes : Bytes → Bytes
without_slashes [] = []
without_slashes (c ∷ s) =
    let rest = without_slashes s in if c == b'/' && null rest then [] else c ∷ rest

-- the loop of `pop_back`, which keeps the first byte
unfoldable pub trimmed : Bytes → Bytes
trimmed [] = []
trimmed (c ∷ s) = c ∷ without_slashes s

-- `std::to_string`, on fuel that is at least the number of digits
unfoldable pub to_string : ℕ → ℕ → Bytes → Bytes
to_string zero n digits = digits
to_string (suc fuel) n digits =
    let rest = to_string fuel (n / 10) ((b'0' + n % 10) ∷ digits) in
    if ltb n 10 then (b'0' + n) ∷ digits else rest

unfoldable pub normalized_url : Bytes → Bytes → ℕ → Bytes → Bytes
normalized_url scheme host port base_path =
    scheme
    ++ ascii "://"
    ++ host
    ++ (if port == default_port scheme then [] else b':' ∷ to_string 10 port [])
    ++ base_path

unfoldable pub parse_registry_url : Bytes → Outcome RegistryUrl
parse_registry_url text = do
  require (not (null text)) "registry URL is empty"
  require (not (has_byte b'#' text)) "registry URL fragments are rejected"
  (raw_scheme, rest) ← elim (split_scheme text) [
    | none ↦ err "registry URL requires a scheme"
    | some parts ↦ ok parts
  ]
  let scheme = lower_ascii raw_scheme
  require (equal scheme (ascii "http") || equal scheme (ascii "https"))
      "unsupported registry URL scheme"
  let (authority, path) = split_authority rest
  require (not (null authority)) "registry URL host is empty"
  require (not (has_byte b'@' authority)) "embedded registry URL credentials are rejected"
  (host, port_text) ← split_host authority
  require (not (null host)) "registry URL host is empty"
  port ← parse_port scheme authority port_text
  require (not (equal scheme (ascii "http")) || is_local host)
      "plain HTTP is allowed only for explicit local hosts"
  require (not (has_byte b'?' path)) "registry base URL query is not supported"
  ok (record {
    scheme = scheme;
    host = host;
    port = port;
    base_path = trimmed path;
    normalized = normalized_url scheme host port (trimmed path);
  })
