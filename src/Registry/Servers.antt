-- ===== src/Registry/Servers.antt =====
-- `valid_server_name` and `valid_server_version` of src/registry.cpp.
use mcp_observatory.Prelude.{
  ℕ, leb, ◌==◌, within, ◌≤◌, Bytes, length, length-append, null, all, has_byte, until_byte, Bool,
  true, false, not, ◌&&◌, ◌||◌, ◌≡◌, refl, ap, [], ◌∷◌, ◌++◌, arith, Bool-cases, inl, inr,
  &&-eq-true, leb→le, le→leb, ==→eq, not-true→false, sym, subst, ◌↔◌,
}
use mcp_observatory.Registry.Url.{behind_byte}

unfoldable pub is_common : ℕ → Bool
is_common c =
    within b'a' b'z' c || within b'A' b'Z' c || within b'0' b'9' c || c == b'.' || c == b'-'

-- The bytes before the slash, and those behind it, which may also be underscores.
unfoldable pub valid_server_name : Bytes → Bool
valid_server_name value =
    leb 3 (length value)
    && leb (length value) 200
    && has_byte b'/' value
    && not (null (until_byte b'/' value))
    && not (null (behind_byte b'/' value))
    && not (has_byte b'/' (behind_byte b'/' value))
    && all is_common (until_byte b'/' value)
    && all (λ c. is_common c || c == b'_') (behind_byte b'/' value)

unfoldable pub valid_server_version : Bytes → Bool
valid_server_version value =
    not (null value) && leb (length value) 255 && all (λ c. leb 32 c && not (c == 127)) value

-- A name of a server: a namespace and a name proper.
pub record IsServerName (value : Bytes) : Type 0 where
  pub namespace : Bytes
  pub name : Bytes
  pub composed : value ≡ namespace ++ b'/' ∷ name
  pub namespace_given : null namespace ≡ false
  pub name_given : null name ≡ false
  pub namespace_bytes : all is_common namespace ≡ true
  pub name_bytes : all (λ c. is_common c || c == b'_') name ≡ true
  pub bounded : length value ≤ 200

later : (x c : ℕ) (b : Bool) → (x == c) ≡ false → (x == c || b) ≡ true → b ≡ true
later x c b e h = ground arith

same : (c : ℕ) → (c == c) ≡ true
same c = ground arith

or_false : (a b : Bool) → (a || b) ≡ false → (a ≡ false) × (b ≡ false)
or_false true b h = cc
or_false false b h = (refl, h)

split_composed :
    (c : ℕ) (s : Bytes) → has_byte c s ≡ true → s ≡ until_byte c s ++ c ∷ behind_byte c s
unfolding has_byte until_byte
split_composed c [] h = cc
split_composed c (x ∷ s) h = elim (Bool-cases (x == c)) [
  | inl e ↦ rw e (ap (λ y. y ∷ s) (==→eq x c e))
  | inr e ↦ rw e (ap (◌∷◌ x) (split_composed c s (later x c (has_byte c s) e h)))
]

behind_composed : (c : ℕ) (s t : Bytes) → has_byte c s ≡ false → behind_byte c (s ++ c ∷ t) ≡ t
unfolding has_byte until_byte
behind_composed c [] t h = rw (same c) refl
behind_composed c (x ∷ s) t h =
    rw ((or_false (x == c) (has_byte c s) h).0)
      (behind_composed c s t (or_false (x == c) (has_byte c s) h).1)

until_composed : (c : ℕ) (s t : Bytes) → has_byte c s ≡ false → until_byte c (s ++ c ∷ t) ≡ s
unfolding has_byte until_byte
until_composed c [] t h = ground arith
until_composed c (x ∷ s) t h = ground (arith, until_composed c s t)

has_composed : (c : ℕ) (s t : Bytes) → has_byte c (s ++ c ∷ t) ≡ true
unfolding has_byte
has_composed c [] t = ground arith
has_composed c (x ∷ s) t = ground (arith, has_composed c s t)

common_no_slash : (s : Bytes) → all is_common s ≡ true → has_byte b'/' s ≡ false
unfolding is_common has_byte
common_no_slash [] h = refl
common_no_slash (x ∷ s) h = ground (arith, common_no_slash s)

name_no_slash : (s : Bytes) → all (λ c. is_common c || c == b'_') s ≡ true → has_byte b'/' s ≡ false
unfolding is_common has_byte
name_no_slash [] h = refl
name_no_slash (x ∷ s) h = ground (arith, name_no_slash s)

null-length : (s : Bytes) → null s ≡ false → 1 ≤ length s
null-length [] h = cc
null-length (c ∷ s) h = omega arith

accepted : (value : Bytes) → valid_server_name value ≡ true → IsServerName value
unfolding valid_server_name
accepted value h =
    let (h7, names) = &&-eq-true _ _ h in
    let (h6, spaces) = &&-eq-true _ _ h7 in
    let (h5, single) = &&-eq-true _ _ h6 in
    let (h4, name) = &&-eq-true _ _ h5 in
    let (h3, space) = &&-eq-true _ _ h4 in
    let (h2, slash) = &&-eq-true _ _ h3 in
    let (h1, top) = &&-eq-true _ _ h2 in
    record {
      namespace = until_byte b'/' value;
      name = behind_byte b'/' value;
      composed = split_composed b'/' value slash;
      namespace_given = not-true→false _ space;
      name_given = not-true→false _ name;
      namespace_bytes = spaces;
      name_bytes = names;
      bounded = leb→le _ _ top;
    }

composed_accepted :
    (s t : Bytes)
    → null s ≡ false
    → null t ≡ false
    → all is_common s ≡ true
    → all (λ c. is_common c || c == b'_') t ≡ true
    → length (s ++ b'/' ∷ t) ≤ 200
    → valid_server_name (s ++ b'/' ∷ t) ≡ true
unfolding valid_server_name
composed_accepted s t p q u v b =
    let no = common_no_slash s u in
    rw
      (
        behind_composed b'/' s t no,
        until_composed b'/' s t no,
        has_composed b'/' s t,
        p,
        q,
        name_no_slash t v,
        u,
        v,
        le→leb _ _ b,
        le→leb 3 (length (s ++ b'/' ∷ t)) long,
      )
      refl
  where
    long : 3 ≤ length (s ++ b'/' ∷ t)
    long = omega (arith, length-append s (b'/' ∷ t), null-length s p, null-length t q)

-- `valid_server_name` accepts exactly the names of at most 200 bytes that are a namespace, a slash
-- and a name, neither of them empty, of letters, digits, dots and dashes, and underscores in the
-- name only.
pub valid_server_name_iff : (value : Bytes) → (valid_server_name value ≡ true) ↔ IsServerName value
valid_server_name_iff value = (
  accepted value,
  λ v.
      subst (λ x. valid_server_name x ≡ true) (sym v.composed)
        (composed_accepted v.namespace v.name v.namespace_given v.name_given v.namespace_bytes
          v.name_bytes (subst (λ x. length x ≤ 200) v.composed v.bounded)),
)
