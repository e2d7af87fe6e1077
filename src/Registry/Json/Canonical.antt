-- ===== src/Registry/Json/Canonical.antt =====
-- Text that `canonical_json` writes is accepted by `parse_json`.
use mcp_observatory.Prelude.{Bytes, ltb, ok, ℕ, ◌≡◌, true, [], ◌∷◌, ◌++◌, ◌≤◌, refl, false, ascii}
use mcp_observatory.Registry.Json.Encoding.{
  IsWhole, valid_utf8-IsWhole, IsWhole-valid_utf8, IsWhole-append, IsWhole-ascii,
  IsWhole-json_string,
}
use mcp_observatory.Registry.Json.Model.{
  Json, null_value, boolean, text, number, array, object, Items, nil, cons, Fields, end, field,
}
use mcp_observatory.Registry.Json.Normal.{IsNormal, AreNormal, HasNormal, nesting}
use mcp_observatory.Registry.Json.Parser.{parse_json}
use mcp_observatory.Registry.Json.Document.{parse_document-canonical_json}
use mcp_observatory.Registry.Json.Utf8.{valid_utf8}
use mcp_observatory.Registry.Json.Writer.{json_string, canonical_json, more_items, more_fields}
use mcp_observatory.Registry.Json.Ascii.{number-IsAscii}

IsWhole-behind : (c : ℕ) (t : Bytes) → ltb c 0x80 ≡ true → IsWhole t → IsWhole (c ∷ t)
IsWhole-behind c t h w = IsWhole-append (c ∷ []) t (IsWhole-ascii (c ∷ []) (h, tt)) w

-- a member's key and colon
member-IsWhole :
    (k t : Bytes) → valid_utf8 k ≡ true → IsWhole t → IsWhole (json_string k ++ (b':' ∷ t))
member-IsWhole k t u w =
    IsWhole-append (json_string k) (b':' ∷ t) (IsWhole-json_string k (valid_utf8-IsWhole k u))
      (IsWhole-behind b':' t refl w)

mutual
  unfolding canonical_json IsNormal ascii

  canonical_json-IsWhole : (v : Json) → IsNormal v → IsWhole (canonical_json v)
  canonical_json-IsWhole null_value n = IsWhole-ascii _ (refl, (refl, (refl, (refl, tt))))
  canonical_json-IsWhole (boolean true) n = IsWhole-ascii _ (refl, (refl, (refl, (refl, tt))))
  canonical_json-IsWhole (boolean false) n =
      IsWhole-ascii _ (refl, (refl, (refl, (refl, (refl, tt)))))
  canonical_json-IsWhole (text s) n = IsWhole-json_string s (valid_utf8-IsWhole s n)
  canonical_json-IsWhole (number s) n = IsWhole-ascii s (number-IsAscii s n)
  canonical_json-IsWhole (array nil) n = IsWhole-ascii _ (refl, (refl, tt))
  canonical_json-IsWhole (array (cons x xs)) (nx, nxs) = IsWhole-behind b'[' _ refl (
      IsWhole-append (canonical_json x) (more_items xs ++ b']' ∷ []) (canonical_json-IsWhole x nx) (
        IsWhole-append (more_items xs) (b']' ∷ []) (more_items-IsWhole xs nxs)
          (IsWhole-ascii _ (refl, tt))))
  canonical_json-IsWhole (object end) n = IsWhole-ascii _ (refl, (refl, tt))
  canonical_json-IsWhole (object (field k v fs)) (uk, nv, p, nfs) = IsWhole-behind b'{' _ refl (
      member-IsWhole k _ uk (
        IsWhole-append (canonical_json v) (more_fields fs ++ b'}' ∷ [])
          (canonical_json-IsWhole v nv)
          (IsWhole-append (more_fields fs) (b'}' ∷ []) (more_fields-IsWhole fs nfs)
            (IsWhole-ascii _ (refl, tt)))))

  more_items-IsWhole : (xs : Items) → AreNormal xs → IsWhole (more_items xs)
  more_items-IsWhole nil n = IsWhole-ascii [] tt
  more_items-IsWhole (cons x xs) (nx, nxs) = IsWhole-behind b',' _ refl (
      IsWhole-append (canonical_json x) (more_items xs) (canonical_json-IsWhole x nx)
        (more_items-IsWhole xs nxs))

  more_fields-IsWhole : (fs : Fields) → HasNormal fs → IsWhole (more_fields fs)
  more_fields-IsWhole end n = IsWhole-ascii [] tt
  more_fields-IsWhole (field k v fs) (uk, nv, p, nfs) = IsWhole-behind b',' _ refl (
      member-IsWhole k _ uk (
        IsWhole-append (canonical_json v) (more_fields fs) (canonical_json-IsWhole v nv)
          (more_fields-IsWhole fs nfs)))

-- The canonical form of a value is UTF-8, if its strings and keys are and its numbers are numbers.
pub valid_utf8-canonical_json : (v : Json) → IsNormal v → valid_utf8 (canonical_json v) ≡ true
valid_utf8-canonical_json v n = IsWhole-valid_utf8 (canonical_json v) (canonical_json-IsWhole v n)

-- A value whose strings and keys are UTF-8, whose numbers are texts of JSON numbers, whose members
-- stand in the order of their keys without repetition and that is nested at most 64 deep is what
-- the strict parser reads from its canonical form.
pub parse_json-canonical_json :
    (v : Json) → IsNormal v → nesting v ≤ 64 → parse_json (canonical_json v) ≡ ok v
unfolding parse_json
parse_json-canonical_json v n d =
    rw (valid_utf8-canonical_json v n) (parse_document-canonical_json v n d)
