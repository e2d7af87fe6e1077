-- ===== src/Registry/Json/Normal.antt =====
-- The values that have a canonical form which is read back: what they hold, and how deep they are.
use Prim.Native.Nat.{max}
use mcp_observatory.Prelude.{
  ℕ, suc, ◌+◌, Bytes, before, ok, true, false, ◌≡◌, [], ◌∷◌, ◌++◌, append_assoc, refl, ascii, equal,
  equal_iff, before_irrefl, before_trans, before_asymm, ap, some, arith,
}
use mcp_observatory.Registry.Json.Model.{
  Json, Items, Fields, null_value, boolean, text, number, array, object, nil, cons, end, field,
  emplace, push_back,
}
use mcp_observatory.Registry.Json.Utf8.{valid_utf8}
use mcp_observatory.Registry.Json.Numbers.{parse_number}
use mcp_observatory.Registry.Json.Writer.{canonical_json, more_items, more_fields, json_string}

-- `key` stands before the first key of the fields
abbrev pub Precedes : Bytes → Fields → Type 0
Precedes key end = Unit
Precedes key (field k v fs) = before key k ≡ true

-- Strings and keys are UTF-8, numbers are texts of numbers, and keys strictly ascend.
unfoldable mutual
  pub IsNormal : Json → Type 0
  IsNormal null_value = Unit
  IsNormal (boolean b) = Unit
  IsNormal (text s) = valid_utf8 s ≡ true
  IsNormal (number s) = parse_number s ≡ ok (s, [])
  IsNormal (array xs) = AreNormal xs
  IsNormal (object fs) = HasNormal fs

  pub AreNormal : Items → Type 0
  AreNormal nil = Unit
  AreNormal (cons x xs) = IsNormal x × AreNormal xs

  pub HasNormal : Fields → Type 0
  HasNormal end = Unit
  HasNormal (field k v fs) = (valid_utf8 k ≡ true) × IsNormal v × Precedes k fs × HasNormal fs

-- How deep the containers of a value are nested inside it.
unfoldable mutual
  pub nesting : Json → ℕ
  nesting null_value = 0
  nesting (boolean b) = 0
  nesting (text s) = 0
  nesting (number s) = 0
  nesting (array xs) = nesting_items xs
  nesting (object fs) = nesting_fields fs

  pub nesting_items : Items → ℕ
  nesting_items nil = 0
  nesting_items (cons x xs) = max (suc (nesting x)) (nesting_items xs)

  pub nesting_fields : Fields → ℕ
  nesting_fields end = 0
  nesting_fields (field k v fs) = max (suc (nesting v)) (nesting_fields fs)

-- how many calls reading a value takes
unfoldable mutual
  pub calls : Json → ℕ
  calls null_value = 1
  calls (boolean b) = 1
  calls (text s) = 1
  calls (number s) = 1
  calls (array xs) = suc (calls_items xs)
  calls (object fs) = suc (calls_fields fs)

  pub calls_items : Items → ℕ
  calls_items nil = 0
  calls_items (cons x xs) = suc (calls x + calls_items xs)

  pub calls_fields : Fields → ℕ
  calls_fields end = 0
  calls_fields (field k v fs) = suc (calls v + calls_fields fs)

-- the canonical text of a value in front of a text
unfoldable mutual
  pub written : Json → Bytes → Bytes
  written null_value rest = ascii "null" ++ rest
  written (boolean true) rest = ascii "true" ++ rest
  written (boolean false) rest = ascii "false" ++ rest
  written (text s) rest = json_string s ++ rest
  written (number s) rest = s ++ rest
  written (array nil) rest = b'[' ∷ b']' ∷ rest
  written (array (cons x xs)) rest = b'[' ∷ written x (written_items xs (b']' ∷ rest))
  written (object end) rest = b'{' ∷ b'}' ∷ rest
  written (object (field k v fs)) rest =
      b'{' ∷ json_string k ++ (b':' ∷ written v (written_fields fs (b'}' ∷ rest)))

  pub written_items : Items → Bytes → Bytes
  written_items nil rest = rest
  written_items (cons x xs) rest = b',' ∷ written x (written_items xs rest)

  pub written_fields : Fields → Bytes → Bytes
  written_fields end rest = rest
  written_fields (field k v fs) rest =
      b',' ∷ json_string k ++ (b':' ∷ written v (written_fields fs rest))

mutual
  unfolding written canonical_json

  canonical-written : (v : Json) (rest : Bytes) → canonical_json v ++ rest ≡ written v rest
  canonical-written null_value rest = refl
  canonical-written (boolean true) rest = refl
  canonical-written (boolean false) rest = refl
  canonical-written (text s) rest = refl
  canonical-written (number s) rest = refl
  canonical-written (array nil) rest = refl
  canonical-written (array (cons x xs)) rest =
      rw
        (
          append_assoc (canonical_json x) (more_items xs ++ b']' ∷ []) rest,
          append_assoc (more_items xs) (b']' ∷ []) rest,
          more_items-written xs (b']' ∷ rest),
          canonical-written x (written_items xs (b']' ∷ rest)),
        )
        refl
  canonical-written (object end) rest = refl
  canonical-written (object (field k v fs)) rest =
      rw
        (
          append_assoc (json_string k) (b':' ∷ canonical_json v ++ (more_fields fs ++ b'}' ∷ []))
              rest,
          append_assoc (canonical_json v) (more_fields fs ++ b'}' ∷ []) rest,
          append_assoc (more_fields fs) (b'}' ∷ []) rest,
          more_fields-written fs (b'}' ∷ rest),
          canonical-written v (written_fields fs (b'}' ∷ rest)),
        )
        refl

  more_items-written : (xs : Items) (rest : Bytes) → more_items xs ++ rest ≡ written_items xs rest
  more_items-written nil rest = refl
  more_items-written (cons x xs) rest =
      rw
        (
          append_assoc (canonical_json x) (more_items xs) rest,
          more_items-written xs rest,
          canonical-written x (written_items xs rest),
        )
        refl

  more_fields-written :
      (fs : Fields) (rest : Bytes) → more_fields fs ++ rest ≡ written_fields fs rest
  more_fields-written end rest = refl
  more_fields-written (field k v fs) rest =
      rw
        (
          append_assoc (json_string k) (b':' ∷ canonical_json v ++ more_fields fs) rest,
          append_assoc (canonical_json v) (more_fields fs) rest,
          more_fields-written fs rest,
          canonical-written v (written_fields fs rest),
        )
        refl

pub canonical_json-written : (v : Json) (rest : Bytes) → canonical_json v ++ rest ≡ written v rest
canonical_json-written v rest = canonical-written v rest

-- a member behind those of lower keys
unfoldable pub append_fields : Fields → Fields → Fields
append_fields end gs = gs
append_fields (field k v fs) gs = field k v (append_fields fs gs)

unfoldable pub append_items : Items → Items → Items
append_items nil ys = ys
append_items (cons x xs) ys = cons x (append_items xs ys)

-- every key of the fields stands before `key`
abbrev pub AllBefore : Fields → Bytes → Type 0
AllBefore end key = Unit
AllBefore (field k v fs) key = (before k key ≡ true) × AllBefore fs key

pub push_back-append : (x : Json) (xs : Items) → push_back x xs ≡ append_items xs (cons x nil)
unfolding push_back append_items
push_back-append x nil = refl
push_back-append x (cons y xs) = ap (cons y) (push_back-append x xs)

pub append_items_assoc :
    (xs ys zs : Items) → append_items (append_items xs ys) zs ≡ append_items xs (append_items ys zs)
unfolding append_items
append_items_assoc nil ys zs = refl
append_items_assoc (cons x xs) ys zs = ap (cons x) (append_items_assoc xs ys zs)

pub append_fields_assoc :
    (fs gs hs : Fields)
    → append_fields (append_fields fs gs) hs ≡ append_fields fs (append_fields gs hs)
unfolding append_fields
append_fields_assoc end gs hs = refl
append_fields_assoc (field k v fs) gs hs = ap (field k v) (append_fields_assoc fs gs hs)

before→not-equal : (k key : Bytes) → before k key ≡ true → equal key k ≡ false
before→not-equal k key h = ground (arith, (equal_iff key k).0, before_irrefl k)

pub emplace-append :
    (key : Bytes) (v : Json) (fs : Fields)
    → AllBefore fs key
    → emplace key v fs ≡ some (append_fields fs (field key v end))
unfolding emplace append_fields
emplace-append key v end h = refl
emplace-append key v (field k w fs) (b, h) =
    rw (before→not-equal k key b, before_asymm k key b, emplace-append key v fs h) refl

pub AllBefore-append :
    (key next : Bytes) (v : Json) (fs : Fields)
    → AllBefore fs key
    → before key next ≡ true
    → AllBefore (append_fields fs (field key v end)) next
unfolding append_fields
AllBefore-append key next v end h b = (b, tt)
AllBefore-append key next v (field k w fs) (a, h) b =
    (before_trans k key next a b, AllBefore-append key next v fs h b)
