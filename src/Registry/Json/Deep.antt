-- ===== src/Registry/Json/Deep.antt =====
-- A value that is nested too deep is refused for that.
use mcp_observatory.Prelude.{
  Bytes, ltb, Bool-cases, err, ℕ, zero, suc, ◌+◌, ◌≤◌, ◌≡◌, refl, inl, inr, [], ◌∷◌, arith,
}
use mcp_observatory.Registry.Json.Depth.{
  too_deep, DeepValue, DeepItems, DeepFields, DeepItemsFrom, DeepFieldsFrom, items_split,
  fields_split, deep_item, deep_member,
}
use mcp_observatory.Registry.Json.Parser.{
  parse_value, skip_json_space, maximum_json_depth, parse_token, parse_fields, parse_items,
  parse_document, parse_json,
}
use mcp_observatory.Registry.Json.Canonical.{valid_utf8-canonical_json}
use mcp_observatory.Registry.Json.Document.{canonical_json-alone, written-enough}
use mcp_observatory.Registry.Json.Heads.{written-BeginsWith, stops_items, stops_fields}
use mcp_observatory.Registry.Json.Model.{
  Json, null_value, boolean, text, number, array, object, nil, cons, end, field, push_back,
}
use mcp_observatory.Registry.Json.Normal.{
  IsNormal, nesting, calls, written, written_items, written_fields, append_fields,
}
use mcp_observatory.Registry.Json.Steps.{
  no_space, item-step, next-item, member-step, next-member, opens_items,
}
use mcp_observatory.Registry.Json.Tokens.{token-object}
use mcp_observatory.Registry.Json.Trip.{Precedes-Follows, no_fuel, parse_value-written}
use mcp_observatory.Registry.Json.Writer.{canonical_json}

deep_items_from : (f : ℕ) → DeepValue f → DeepItems f → DeepItemsFrom (suc f)
unfolding IsNormal
deep_items_from f value items x xs depth acc rest c l d (nx, nxs) =
    let (cx, cxs, which) = items_split x xs f depth c d in
    let stop = stops_items xs rest in
    elim which [
      | inl h ↦
          deep_item f depth acc _ (value x depth (written_items xs (b']' ∷ rest)) cx h nx stop)
      | inr p ↦
          rw
            (item-step f depth x acc _ _
              (parse_value-written x f depth (written_items xs (b']' ∷ rest)) cx p.0 nx stop) stop)
            (items xs depth (push_back x acc) rest cxs l p.1 nxs)
    ]

deep_fields_from : (f : ℕ) → DeepValue f → DeepFields f → DeepFieldsFrom (suc f)
unfolding IsNormal
deep_fields_from f value fields k v fs depth acc rest c l d (uk, nv, p, nfs) a =
    let (cv, cfs, which) = fields_split k v fs f depth c d in
    let stop = stops_fields fs rest in
    elim which [
      | inl h ↦
          deep_member f depth k acc _ (value v depth (written_fields fs (b'}' ∷ rest)) cv h nv stop)
      | inr q ↦
          rw
            (member-step f depth k v acc _ _ a (written-BeginsWith v _ nv)
              (parse_value-written v f depth (written_fields fs (b'}' ∷ rest)) cv q.0 nv stop) stop)
            (fields fs depth (append_fields acc (field k v end)) rest cfs l q.1 nfs
              (Precedes-Follows k v fs acc p a))
    ]

deep_items : (f : ℕ) → DeepItemsFrom f → DeepItems f
unfolding written IsNormal nesting
deep_items f from nil depth acc rest c l d n = absurd (omega arith)
deep_items f from (cons x xs) depth acc rest c l d n =
    rw (next-item _ acc _ _ (written-BeginsWith x (written_items xs (b']' ∷ rest)) n.0))
      (from x xs depth acc rest c l d n)

deep_fields : (f : ℕ) → DeepFieldsFrom f → DeepFields f
unfolding written IsNormal nesting
deep_fields f from end depth acc rest c l d n a = absurd (omega arith)
deep_fields f from (field k v fs) depth acc rest c l d n a =
    rw (next-member _ acc _ k (b':' ∷ written v (written_fields fs (b'}' ∷ rest))))
      (from k v fs depth acc rest c l d n a)

deep_token :
    (f : ℕ)
    → DeepItemsFrom f
    → DeepFieldsFrom f
    → (v : Json) (depth : ℕ) (rest : Bytes) → calls v ≤ suc f
    → depth ≤ 65
    → 66 ≤ depth + nesting v
    → IsNormal v
    → parse_token
        (parse_fields f depth end)
        (parse_items f depth nil)
        (skip_json_space (written v rest))
      ≡ err too_deep
unfolding written calls nesting IsNormal
deep_token f items fields null_value depth rest c l d n = absurd (omega arith)
deep_token f items fields (boolean b) depth rest c l d n = absurd (omega arith)
deep_token f items fields (text s) depth rest c l d n = absurd (omega arith)
deep_token f items fields (number s) depth rest c l d n = absurd (omega arith)
deep_token f items fields (array nil) depth rest c l d n = absurd (omega arith)
deep_token f items fields (array (cons x xs)) depth rest c l d n =
    rw
      (
        opens_items _ _ _ (written-BeginsWith x (written_items xs (b']' ∷ rest)) n.0),
        items x xs depth nil rest (omega arith) l d n,
      )
      refl
deep_token f items fields (object end) depth rest c l d n = absurd (omega arith)
deep_token f items fields (object (field k v fs)) depth rest c l d n =
    rw (token-object _ _ k _, fields k v fs depth end rest (omega arith) l d n tt) refl

deep_value : (f : ℕ) → DeepItemsFrom f → DeepFieldsFrom f → DeepValue (suc f)
unfolding parse_value
deep_value f items fields v depth rest c d n e = elim (Bool-cases (ltb maximum_json_depth depth)) [
  | inl h ↦ rw h refl
  | inr h ↦
      rw (h, deep_token f items fields v (depth + 1) rest c (ground arith) (omega arith) n) refl
]

calls-positive : (v : Json) → 1 ≤ calls v
unfolding calls
calls-positive null_value = omega arith
calls-positive (boolean b) = omega arith
calls-positive (text s) = omega arith
calls-positive (number s) = omega arith
calls-positive (array xs) = omega arith
calls-positive (object fs) = omega arith

abbrev Deep : ℕ → Type 0
Deep f = DeepValue f × DeepItemsFrom f × DeepFieldsFrom f

deep : (f : ℕ) → Deep f
unfolding calls
deep zero = (
  (λ v depth rest c d n e. absurd (omega (arith, calls-positive v))),
  (λ x xs depth acc rest c l d n. absurd (no_fuel _ c)),
  (λ k v fs depth acc rest c l d n a. absurd (no_fuel _ c)),
)
deep (suc f) =
    let (value, items, fields) = deep f in
    (
      deep_value f items fields,
      deep_items_from f value (deep_items f items),
      deep_fields_from f value (deep_fields f fields),
    )

-- The canonical form of a value whose strings and keys are UTF-8, whose numbers are texts of JSON
-- numbers, whose keys strictly ascend and that is nested deeper than 64 is refused, and for its
-- depth.
pub parse_json-too_deep :
    (v : Json)
    → IsNormal v
    → 65 ≤ nesting v
    → parse_json (canonical_json v) ≡ err "JSON nesting limit exceeded"
unfolding parse_json parse_document
parse_json-too_deep v n d =
    rw
      (
        valid_utf8-canonical_json v n,
        canonical_json-alone v,
        no_space (written v []) (written-BeginsWith v [] n),
        (deep _).0 v 0 [] (written-enough v) (omega (arith, d)) n refl,
      )
      refl
