-- ===== src/Registry/Endpoint.antt =====
-- `parse_registry_url`: what an accepted registry address is.
use mcp_observatory.Prelude.{
  ℕ, leb, ◌==◌, if◌then◌else◌, &&-eq-true, leb→le, ◌≤◌, Bytes, ascii, length, null, all, equal,
  has_byte, front, back, Ensures, holds, Ensures-require, Ensures-if, ◌≡◌, refl, Bool, true, false,
  not, ◌&&◌, ◌||◌, [], ◌∷◌, arith, until_byte, ◌++◌, not-true→false, ok, err, rejected, ◌∙◌, ap,
  subst, ==→eq, Bool-cases, inl, inr, ltb, ltb→lt, ◌<◌, ◌+◌, ◌*◌, ◌/◌, ◌%◌, zero, suc, Ensures-bind,
  Option, none, some, equal_iff, sym,
}
use mcp_observatory.Scan.{is_digit, decimal}
use mcp_observatory.Registry.Address.{RegistryUrl, lower_ascii, to_lower}
use mcp_observatory.Registry.Url.{
  split_authority, bracketed_host, plain_host, split_host, behind_byte, parse_port, is_local,
  without_slashes, trimmed, normalized_url, split_scheme, parse_registry_url, to_string,
  default_port,
}

-- The part of an address that names the port: nothing for the port that the scheme implies, and a
-- colon and its decimal digits for every other.
abbrev pub IsPortPart : Bytes → ℕ → Bytes → Type 0
IsPortPart scheme port [] = port ≡ (if equal scheme (ascii "http") then 80 else 443)
IsPortPart scheme port (c ∷ ds) =
    ((port == (if equal scheme (ascii "http") then 80 else 443)) ≡ false)
    × (c ≡ b':')
    × (all is_digit ds ≡ true)
    × (decimal 0 ds ≡ port)

-- An address that the collector may contact.
pub record IsEndpoint (u : RegistryUrl) : Type 0 where
  pub scheme : (equal u.scheme (ascii "http") || equal u.scheme (ascii "https")) ≡ true
  pub local :
      (equal u.scheme (ascii "https")
        || (equal u.host (ascii "localhost")
            || (equal u.host (ascii "127.0.0.1") || equal u.host (ascii "[::1]"))))
      ≡ true
  pub host : null u.host ≡ false
  pub lower_case : lower_ascii u.host ≡ u.host
  pub port : (1 ≤ u.port) × (u.port ≤ 65535)
  pub no_query : has_byte b'?' u.base_path ≡ false
  pub rooted : (null u.base_path || front u.base_path == b'/') ≡ true
  pub trimmed_end : (leb (length u.base_path) 1 || not (back u.base_path == b'/')) ≡ true
  pub port_part : Bytes
  pub names_port : IsPortPart u.scheme u.port port_part
  pub normalized : u.normalized ≡ u.scheme ++ ascii "://" ++ u.host ++ port_part ++ u.base_path

to_lower_idem : (c : ℕ) → to_lower (to_lower c) ≡ to_lower c
to_lower_idem c = ground arith

lower_ascii_idem : (s : Bytes) → lower_ascii (lower_ascii s) ≡ lower_ascii s
unfolding lower_ascii
lower_ascii_idem [] = refl
lower_ascii_idem (c ∷ s) = rw (to_lower_idem c, lower_ascii_idem s) refl

split_host-lower_case :
    (authority : Bytes)
    → Ensures (λ (r : Bytes × Bytes). lower_ascii r.0 ≡ r.0) (split_host authority)
unfolding split_host bracketed_host plain_host
split_host-lower_case authority =
    Ensures-if (front authority == b'[')
      (Ensures-require (has_byte b']' authority) _ λ closed.
        Ensures-require
          (null (behind_byte b']' authority) || front (behind_byte b']' authority) == b':') _
          λ colon. holds (lower_ascii_idem (until_byte b']' authority ++ b']' ∷ [])))
      (Ensures-if (not (has_byte b':' authority)) (holds (lower_ascii_idem authority)) (
        Ensures-require (not (has_byte b':' (behind_byte b':' authority))) _
          λ single. holds (lower_ascii_idem (until_byte b':' authority))))

parse_port-range :
    (scheme authority port_text : Bytes)
    → Ensures (λ n. (1 ≤ n) × (n ≤ 65535)) (parse_port scheme authority port_text)
unfolding parse_port
parse_port-range scheme authority port_text =
    Ensures-if (null port_text)
      (Ensures-require (not (back authority == b':')) _
        λ _. holds (default_range (equal scheme (ascii "https"))))
      (Ensures-require
        (all is_digit port_text && leb 1 (decimal 0 port_text) && leb (decimal 0 port_text) 65535) _
        λ h.
          let (h1, top) = &&-eq-true _ _ h in
          let (_, bottom) = &&-eq-true _ _ h1 in holds (leb→le _ _ bottom, leb→le _ _ top))
  where
    default_range : (b : Bool) → (1 ≤ (if b then 443 else 80)) × ((if b then 443 else 80) ≤ 65535)
    default_range true = omega arith
    default_range false = omega arith

split_authority-rooted :
    (s : Bytes)
    → has_byte b'?' (split_authority s).1 ≡ false
    → (null (split_authority s).1 || front (split_authority s).1 == b'/') ≡ true
unfolding split_authority has_byte
split_authority-rooted [] h = refl
split_authority-rooted (c ∷ s) h = ground (arith, split_authority-rooted s)

has_byte-without_slashes :
    (x : ℕ) (s : Bytes) → has_byte x s ≡ false → has_byte x (without_slashes s) ≡ false
unfolding has_byte without_slashes
has_byte-without_slashes x [] h = refl
has_byte-without_slashes x (c ∷ s) h = ground (arith, has_byte-without_slashes x s)

has_byte-trimmed : (x : ℕ) (s : Bytes) → has_byte x s ≡ false → has_byte x (trimmed s) ≡ false
unfolding trimmed has_byte
has_byte-trimmed x [] h = h
has_byte-trimmed x (c ∷ s) h = ground (arith, has_byte-without_slashes x s)

back-without_slashes :
    (s : Bytes) → (null (without_slashes s) || not (back (without_slashes s) == b'/')) ≡ true
unfolding without_slashes
back-without_slashes [] = refl
back-without_slashes (c ∷ s) = ground (arith, back-without_slashes s)

trimmed-rooted :
    (s : Bytes)
    → (null s || front s == b'/') ≡ true
    → (null (trimmed s) || front (trimmed s) == b'/') ≡ true
unfolding trimmed
trimmed-rooted [] h = refl
trimmed-rooted (c ∷ s) h = h

back-cons :
    (c : ℕ) (s : Bytes)
    → (null s || not (back s == b'/')) ≡ true
    → (leb (length (c ∷ s)) 1 || not (back (c ∷ s) == b'/')) ≡ true
back-cons c [] h = refl
back-cons c (d ∷ s) h = ground arith

trimmed-end : (s : Bytes) → (leb (length (trimmed s)) 1 || not (back (trimmed s) == b'/')) ≡ true
unfolding trimmed
trimmed-end [] = refl
trimmed-end (c ∷ s) = back-cons c (without_slashes s) (back-without_slashes s)

-- numbers of some digits
abbrev tens : ℕ → ℕ
tens zero = 1
tens (suc f) = 10 * tens f

decimal-to_string :
    (f n : ℕ) (digits : Bytes) → n < tens f → decimal 0 (to_string f n digits) ≡ decimal n digits
unfolding decimal to_string
decimal-to_string zero n digits h = ap (λ m. decimal m digits) (omega arith)
decimal-to_string (suc f) n digits h = elim (Bool-cases (ltb n 10)) [
  | inl k ↦ rw k (ap (λ m. decimal m digits) (omega arith))
  | inr k ↦ rw k (
      decimal-to_string f (n / 10) ((b'0' + n % 10) ∷ digits) (omega arith)
      ∙ ap (λ m. decimal m digits) (omega arith))
]

to_string-digits :
    (f n : ℕ) (digits : Bytes)
    → all is_digit digits ≡ true
    → all is_digit (to_string f n digits) ≡ true
unfolding to_string
to_string-digits zero n digits h = h
to_string-digits (suc f) n digits h = elim (Bool-cases (ltb n 10)) [
  | inl k ↦ rw (k, h, low n (ltb→lt n 10 k)) refl
  | inr k ↦ rw k (
      to_string-digits f (n / 10) ((b'0' + n % 10) ∷ digits)
        (rw (h, low (n % 10) (omega arith)) refl))
]
  where
    low : (m : ℕ) → m < 10 → is_digit (b'0' + m) ≡ true
    low m l = ground arith

different : equal (ascii "http") (ascii "https") ≡ false
unfolding ascii equal
different = refl

-- the port that a scheme implies, of the two schemes
implied :
    (scheme : Bytes)
    → (equal scheme (ascii "http") || equal scheme (ascii "https")) ≡ true
    → default_port scheme ≡ (if equal scheme (ascii "http") then 80 else 443)
implied scheme h = elim (Bool-cases (equal scheme (ascii "http"))) [
  | inl e ↦ rw (e, not_both ((equal_iff scheme (ascii "http")).0 e)) refl
  | inr e ↦ rw (e, other e) refl
]
  where
    not_both : scheme ≡ ascii "http" → equal scheme (ascii "https") ≡ false
    not_both e = subst (λ t. equal t (ascii "https") ≡ false) (sym e) different

    other : equal scheme (ascii "http") ≡ false → equal scheme (ascii "https") ≡ true
    other e = ground arith

-- the part of the port in `normalized_url`
abbrev written_port : Bytes → ℕ → Bytes
written_port scheme port = if port == default_port scheme then [] else b':' ∷ to_string 10 port []

written_port-IsPortPart :
    (scheme : Bytes) (port : ℕ)
    → default_port scheme ≡ (if equal scheme (ascii "http") then 80 else 443)
    → port ≤ 65535
    → IsPortPart scheme port (written_port scheme port)
unfolding decimal
written_port-IsPortPart scheme port d h = elim (Bool-cases (port == default_port scheme)) [
  | inl k ↦ rw k (==→eq _ _ k ∙ d)
  | inr k ↦ rw k (
    subst (λ n. (port == n) ≡ false) d k,
    refl,
    to_string-digits 10 port [] refl,
    decimal-to_string 10 port [] (omega arith),
  )
]

local_host :
    (http https a b c : Bool)
    → (http || https) ≡ true
    → (not http || (a || b || c)) ≡ true
    → (https || (a || (b || c))) ≡ true
local_host http https a b c h k = ground arith

-- Every address that `parse_registry_url` accepts is `https`, or `http` at `localhost`,
-- `127.0.0.1` or `[::1]`; its host is not empty and in lower case, its port from 1 to 65535; its
-- path has no query, begins with a slash if it is not empty, and ends in a slash only if it is one
-- slash; and `normalized` is the scheme, `://`, the host, a colon and the decimal digits of the
-- port if the scheme does not imply it, and the path.
pub parse_registry_url-IsEndpoint : (text : Bytes) → Ensures IsEndpoint (parse_registry_url text)
unfolding parse_registry_url normalized_url
parse_registry_url-IsEndpoint text = Ensures-require (not (null text)) _ λ given.
    Ensures-require (not (has_byte b'#' text)) _ λ whole.
      Ensures-bind (scheme_parts (split_scheme text)) λ parts _.
        let scheme = lower_ascii parts.0 in
        let authority = (split_authority parts.1).0 in
        let path = (split_authority parts.1).1 in
        Ensures-require (equal scheme (ascii "http") || equal scheme (ascii "https")) _ λ known.
          Ensures-require (not (null authority)) _ λ _.
            Ensures-require (not (has_byte b'@' authority)) _ λ _.
              Ensures-bind (split_host-lower_case authority) λ h lower.
                Ensures-require (not (null h.0)) _ λ host.
                  Ensures-bind (parse_port-range scheme authority h.1) λ port range.
                    Ensures-require (not (equal scheme (ascii "http")) || is_local h.0) _ λ local.
                      Ensures-require (not (has_byte b'?' path)) _ λ query. holds (record {
                        scheme = known;
                        local =
                            local_host (equal scheme (ascii "http")) (equal scheme (ascii "https"))
                              (equal h.0 (ascii "localhost")) (equal h.0 (ascii "127.0.0.1"))
                              (equal h.0 (ascii "[::1]")) known local;
                        host = not-true→false _ host;
                        lower_case = lower;
                        port = range;
                        no_query = has_byte-trimmed b'?' path (not-true→false _ query);
                        rooted =
                            trimmed-rooted path
                              (split_authority-rooted parts.1 (not-true→false _ query));
                        trimmed_end = trimmed-end path;
                        port_part = written_port scheme port;
                        names_port =
                            written_port-IsPortPart scheme port (implied scheme known) range.1;
                        normalized = refl;
                      })
  where
    scheme_parts :
        (o : Option (Bytes × Bytes))
        → Ensures
            (λ (p : Bytes × Bytes). Unit {0})
            (elim o [ none ↦ err "registry URL requires a scheme" | some parts ↦ ok parts ])
    scheme_parts none = rejected
    scheme_parts (some p) = holds tt
