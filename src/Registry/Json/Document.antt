-- ===== src/Registry/Json/Document.antt =====
-- `JsonParser::parse` reads the canonical form of a value back.
use mcp_observatory.Prelude.{
  ok, suc, ◌≡◌, refl, ◌∷◌, ◌++◌, ◌≤◌, arith, length, length-append, ◌*◌, sym, ◌∙◌, subst, [],
  append-nil,
}
use mcp_observatory.Registry.Json.Heads.{written-BeginsWith}
use mcp_observatory.Scan.{skip_space}
use mcp_observatory.Registry.Json.Model.{
  Json, Items, nil, cons, Fields, end, field, null_value, boolean, text, number, array, object,
}
use mcp_observatory.Registry.Json.Normal.{
  IsNormal, nesting, calls, calls_items, calls_fields, written, canonical_json-written,
}
use mcp_observatory.Registry.Json.Trip.{parse_value-written}
use mcp_observatory.Registry.Json.Parser.{parse_document}
use mcp_observatory.Registry.Json.Writer.{json_string, canonical_json, more_items, more_fields}
use mcp_observatory.Registry.Json.Steps.{no_space}

-- the fuel of `parse_document` is enough
mutual
  unfolding calls canonical_json

  calls-length : (v : Json) → calls v ≤ suc (2 * length (canonical_json v))
  calls-length null_value = omega arith
  calls-length (boolean b) = omega arith
  calls-length (text s) = omega arith
  calls-length (number s) = omega arith
  calls-length (array nil) = omega arith
  calls-length (array (cons x xs)) = omega (
    arith,
    calls-length x,
    calls_items-length xs,
    length-append (canonical_json x) (more_items xs ++ b']' ∷ []),
    length-append (more_items xs) (b']' ∷ []),
  )
  calls-length (object end) = omega arith
  calls-length (object (field k v fs)) = omega (
    arith,
    calls-length v,
    calls_fields-length fs,
    length-append (json_string k) (b':' ∷ canonical_json v ++ (more_fields fs ++ b'}' ∷ [])),
    length-append (canonical_json v) (more_fields fs ++ b'}' ∷ []),
    length-append (more_fields fs) (b'}' ∷ []),
  )

  calls_items-length : (xs : Items) → calls_items xs ≤ 2 * length (more_items xs)
  calls_items-length nil = omega arith
  calls_items-length (cons x xs) = omega (
    arith,
    calls-length x,
    calls_items-length xs,
    length-append (canonical_json x) (more_items xs),
  )

  calls_fields-length : (fs : Fields) → calls_fields fs ≤ 2 * length (more_fields fs)
  calls_fields-length end = omega arith
  calls_fields-length (field k v fs) = omega (
    arith,
    calls-length v,
    calls_fields-length fs,
    length-append (canonical_json v) (more_fields fs),
    length-append (json_string k) (b':' ∷ canonical_json v ++ more_fields fs),
  )

pub canonical_json-alone : (v : Json) → canonical_json v ≡ written v []
canonical_json-alone v = sym (append-nil (canonical_json v)) ∙ canonical_json-written v []

pub written-enough : (v : Json) → calls v ≤ suc (suc (2 * length (written v [])))
written-enough v =
    subst (λ t. calls v ≤ suc (suc (2 * length t))) (canonical_json-alone v)
      (omega (arith, calls-length v))

pub parse_document-canonical_json :
    (v : Json) → IsNormal v → nesting v ≤ 64 → parse_document (canonical_json v) ≡ ok v
unfolding parse_document skip_space
parse_document-canonical_json v n d =
    rw
      (
        canonical_json-alone v,
        no_space (written v []) (written-BeginsWith v [] n),
        parse_value-written v _ 0 [] (written-enough v) (omega (arith, d)) n refl,
      )
      refl
