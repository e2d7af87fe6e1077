-- ===== src/Registry/Json/Trip.antt =====
-- The strict parser reads the canonical form of a value back.
use mcp_observatory.Prelude.{
  Bytes, ok, ℕ, suc, ◌≡◌, refl, true, ◌∷◌, ◌++◌, ◌+◌, ◌≤◌, arith, false, zero,
}
use mcp_observatory.Registry.Json.Heads.{
  token-number, written-BeginsWith, stops_items, stops_fields,
}
use mcp_observatory.Registry.Json.Model.{
  Json, Items, nil, cons, Fields, end, field, push_back, null_value, boolean, text, number, array,
  object,
}
use mcp_observatory.Registry.Json.Normal.{
  append_fields, append_items, AllBefore, IsNormal, AreNormal, HasNormal, nesting, nesting_items,
  nesting_fields, calls, calls_items, calls_fields, written, written_items, written_fields,
  Precedes, append_fields_assoc, AllBefore-append,
}
use mcp_observatory.Registry.Json.NumberTrip.{stops}
use mcp_observatory.Registry.Json.Parser.{
  skip_json_space, next_entry, parse_value, parse_fields, parse_items, parse_token, array_value,
  object_value,
}
use mcp_observatory.Registry.Json.Tokens.{
  token-null, token-true, token-false, token-text, token-empty_array, token-empty_object,
  token-object,
}
use mcp_observatory.Registry.Json.Writer.{json_string}
use mcp_observatory.Registry.Json.Steps.{
  item-step, append_items_nil, append_fields_end, append-push_back, next-item, member-step,
  next-member, items_bounds, fields_bounds, opens_items, shallow,
}

-- the keys of the second fields stand behind those of the first
abbrev pub Follows : Fields → Fields → Type 0
Follows acc end = Unit
Follows acc (field k v fs) = AllBefore acc k

pub Precedes-Follows :
    (k : Bytes) (v : Json) (fs acc : Fields)
    → Precedes k fs
    → AllBefore acc k
    → Follows (append_fields acc (field k v end)) fs
Precedes-Follows k v end acc p a = tt
Precedes-Follows k v (field n w fs) acc p a = AllBefore-append k n v acc a p

-- With this much fuel a value, and what stands behind an element, are read back.
abbrev ReadsValue : ℕ → Type 0
ReadsValue f =
    (v : Json) (depth : ℕ) (rest : Bytes)
    → calls v ≤ f
    → depth + nesting v ≤ 64
    → IsNormal v
    → stops rest ≡ true
    → parse_value f depth (written v rest) ≡ ok (v, rest)

abbrev ReadsItems : ℕ → Type 0
ReadsItems f =
    (xs : Items) (depth : ℕ) (acc : Items) (rest : Bytes)
    → calls_items xs ≤ f
    → depth + nesting_items xs ≤ 65
    → AreNormal xs
    → next_entry b']' "expected ',' or ']'" acc (parse_items f depth acc)
        (written_items xs (b']' ∷ rest))
      ≡ ok (append_items acc xs, rest)

abbrev ReadsFields : ℕ → Type 0
ReadsFields f =
    (fs : Fields) (depth : ℕ) (acc : Fields) (rest : Bytes)
    → calls_fields fs ≤ f
    → depth + nesting_fields fs ≤ 65
    → HasNormal fs
    → Follows acc fs
    → next_entry b'}' "expected ',' or '}'" acc (parse_fields f depth acc)
        (written_fields fs (b'}' ∷ rest))
      ≡ ok (append_fields acc fs, rest)

-- from an element on
abbrev ReadsItemsFrom : ℕ → Type 0
ReadsItemsFrom f =
    (x : Json) (xs : Items) (depth : ℕ) (acc : Items) (rest : Bytes)
    → calls_items (cons x xs) ≤ f
    → depth + nesting_items (cons x xs) ≤ 65
    → AreNormal (cons x xs)
    → parse_items f depth acc (written x (written_items xs (b']' ∷ rest)))
      ≡ ok (append_items acc (cons x xs), rest)

abbrev ReadsFieldsFrom : ℕ → Type 0
ReadsFieldsFrom f =
    (k : Bytes) (v : Json) (fs : Fields) (depth : ℕ) (acc : Fields) (rest : Bytes)
    → calls_fields (field k v fs) ≤ f
    → depth + nesting_fields (field k v fs) ≤ 65
    → HasNormal (field k v fs)
    → AllBefore acc k
    → parse_fields f depth acc
        (json_string k ++ (b':' ∷ written v (written_fields fs (b'}' ∷ rest))))
      ≡ ok (append_fields acc (field k v fs), rest)

abbrev Reads : ℕ → Type 0
Reads f = ReadsValue f × ReadsItems f × ReadsFields f × ReadsItemsFrom f × ReadsFieldsFrom f

items_from : (f : ℕ) → ReadsValue f → ReadsItems f → ReadsItemsFrom (suc f)
unfolding IsNormal
items_from f value items x xs depth acc rest c d (nx, nxs) =
    let (cx, cxs, dx, dxs) = items_bounds x xs f depth c d in
    let stop = stops_items xs rest in
    rw
      (
        item-step f depth x acc _ _ (value x depth (written_items xs (b']' ∷ rest)) cx dx nx stop)
            stop,
        items xs depth (push_back x acc) rest cxs dxs nxs,
        append-push_back x acc xs,
      )
      refl

reads_items : (f : ℕ) → ReadsValue f → ReadsItems f → ReadsItems (suc f)
unfolding written IsNormal next_entry
reads_items f value items nil depth acc rest c d n = rw (append_items_nil acc) refl
reads_items f value items (cons x xs) depth acc rest c d n =
    rw (next-item _ acc _ _ (written-BeginsWith x (written_items xs (b']' ∷ rest)) n.0))
      (items_from f value items x xs depth acc rest c d n)

fields_from : (f : ℕ) → ReadsValue f → ReadsFields f → ReadsFieldsFrom (suc f)
unfolding IsNormal append_fields
fields_from f value fields k v fs depth acc rest c d (uk, nv, p, nfs) a =
    let (cv, cfs, dv, dfs) = fields_bounds k v fs f depth c d in
    let stop = stops_fields fs rest in
    rw
      (
        member-step f depth k v acc _ _ a (written-BeginsWith v _ nv)
            (value v depth (written_fields fs (b'}' ∷ rest)) cv dv nv stop) stop,
        fields fs depth (append_fields acc (field k v end)) rest cfs dfs nfs
            (Precedes-Follows k v fs acc p a),
        append_fields_assoc acc (field k v end) fs,
      )
      refl

reads_fields : (f : ℕ) → ReadsValue f → ReadsFields f → ReadsFields (suc f)
unfolding written IsNormal next_entry
reads_fields f value fields end depth acc rest c d n a = rw (append_fields_end acc) refl
reads_fields f value fields (field k v fs) depth acc rest c d n a =
    rw (next-member _ acc _ k (b':' ∷ written v (written_fields fs (b'}' ∷ rest))))
      (fields_from f value fields k v fs depth acc rest c d n a)

reads_token :
    (f : ℕ)
    → ReadsItemsFrom f
    → ReadsFieldsFrom f
    → (v : Json) (depth : ℕ) (rest : Bytes) → calls v ≤ suc f
    → depth + nesting v ≤ 65
    → IsNormal v
    → stops rest ≡ true
    → parse_token
        (parse_fields f depth end)
        (parse_items f depth nil)
        (skip_json_space (written v rest))
      ≡ ok (v, rest)
unfolding written calls nesting IsNormal append_items append_fields array_value object_value
reads_token f items fields null_value depth rest c d n e = token-null _ _ rest
reads_token f items fields (boolean true) depth rest c d n e = token-true _ _ rest
reads_token f items fields (boolean false) depth rest c d n e = token-false _ _ rest
reads_token f items fields (text s) depth rest c d n e = token-text _ _ s rest
reads_token f items fields (number s) depth rest c d n e = token-number _ _ s rest n e
reads_token f items fields (array nil) depth rest c d n e = token-empty_array _ _ rest
reads_token f items fields (array (cons x xs)) depth rest c d n e =
    rw
      (
        opens_items _ _ _ (written-BeginsWith x (written_items xs (b']' ∷ rest)) n.0),
        items x xs depth nil rest (omega arith) d n,
      )
      refl
reads_token f items fields (object end) depth rest c d n e = token-empty_object _ _ rest
reads_token f items fields (object (field k v fs)) depth rest c d n e =
    rw (token-object _ _ k _, fields k v fs depth end rest (omega arith) d n tt) refl

reads_value : (f : ℕ) → ReadsItemsFrom f → ReadsFieldsFrom f → ReadsValue (suc f)
unfolding parse_value
reads_value f items fields v depth rest c d n e =
    rw
      (
        shallow depth (nesting v) d,
        reads_token f items fields v (depth + 1) rest c (omega arith) n e,
      )
      refl

pub no_fuel : (m : ℕ) → suc m ≤ 0 → ⊥
no_fuel m h = omega arith

no_calls : ReadsValue 0
unfolding calls
no_calls null_value depth rest c d n e = elim (no_fuel _ c) [ ]
no_calls (boolean b) depth rest c d n e = elim (no_fuel _ c) [ ]
no_calls (text s) depth rest c d n e = elim (no_fuel _ c) [ ]
no_calls (number s) depth rest c d n e = elim (no_fuel _ c) [ ]
no_calls (array xs) depth rest c d n e = elim (no_fuel _ c) [ ]
no_calls (object fs) depth rest c d n e = elim (no_fuel _ c) [ ]

no_items : ReadsItems 0
unfolding written calls next_entry
no_items nil depth acc rest c d n = rw (append_items_nil acc) refl
no_items (cons x xs) depth acc rest c d n = elim (no_fuel _ c) [ ]

no_fields : ReadsFields 0
unfolding written calls next_entry
no_fields end depth acc rest c d n a = rw (append_fields_end acc) refl
no_fields (field k v fs) depth acc rest c d n a = elim (no_fuel _ c) [ ]

reads : (f : ℕ) → Reads f
unfolding calls
reads zero = (
  no_calls,
  no_items,
  no_fields,
  (λ x xs depth acc rest c d n. elim (no_fuel _ c) [ ]),
  (λ k v fs depth acc rest c d n a. elim (no_fuel _ c) [ ]),
)
reads (suc f) =
    let (value, items, fields, from_item, from_field) = reads f in
    (
      reads_value f from_item from_field,
      reads_items f value items,
      reads_fields f value fields,
      items_from f value items,
      fields_from f value fields,
    )

-- A normal value's text is read back, whatever stops it.
pub parse_value-written :
    (v : Json) (f depth : ℕ) (rest : Bytes)
    → calls v ≤ f
    → depth + nesting v ≤ 64
    → IsNormal v
    → stops rest ≡ true
    → parse_value f depth (written v rest) ≡ ok (v, rest)
parse_value-written v f depth rest = (reads f).0 v depth rest
