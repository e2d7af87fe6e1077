-- ===== src/Registry/Json/Steps.antt =====
-- One step of the loops of `parse_value`, on text that `canonical_json` writes.
use mcp_observatory.Prelude.{
  Bytes, Outcome, ok, ℕ, suc, String, ◌≡◌, refl, ap, true, [], ◌∷◌, ◌++◌, ◌+◌, ◌≤◌, arith, false,
  ltb, ◌>>=◌,
}
use mcp_observatory.Registry.Json.Heads.{BeginsWith, stops_not_space}
use mcp_observatory.Scan.{skip_space, expect}
use mcp_observatory.Registry.Json.Model.{Json, Items, nil, cons, Fields, end, field, push_back}
use mcp_observatory.Registry.Json.Normal.{
  append_fields, append_items, AllBefore, push_back-append, append_items_assoc, nesting,
  nesting_items, nesting_fields, calls, calls_items, calls_fields, emplace-append,
}
use mcp_observatory.Registry.Json.NumberTrip.{stops}
use mcp_observatory.Registry.Json.Parser.{
  skip_json_space, next_entry, parse_value, parse_fields, parse_items, add_field, parse_token,
  maximum_json_depth, array_value,
}
use mcp_observatory.Registry.Json.StringTrip.{parse_string-json_string}
use mcp_observatory.Registry.Json.Tokens.{value_head, head_not_space, token-array}
use mcp_observatory.Registry.Json.Writer.{json_string}

pub no_space : (t : Bytes) → BeginsWith value_head t → skip_json_space t ≡ t
no_space [] b = elim b [ ]
no_space (c ∷ s) b = head_not_space c s b

-- the next step of the loop over items
pub item-step :
    (f depth : ℕ) (x : Json) (acc : Items) (t rest : Bytes)
    → parse_value f depth t ≡ ok (x, rest)
    → stops rest ≡ true
    → parse_items (suc f) depth acc t
      ≡ next_entry b']' "expected ',' or ']'"
          (push_back x acc)
          (parse_items f depth (push_back x acc))
          rest
unfolding parse_items
item-step f depth x acc t rest h e = rw (h, stops_not_space rest e) refl

pub append_items_nil : (xs : Items) → append_items xs nil ≡ xs
unfolding append_items
append_items_nil nil = refl
append_items_nil (cons x xs) = ap (cons x) (append_items_nil xs)

pub append_fields_end : (fs : Fields) → append_fields fs end ≡ fs
unfolding append_fields
append_fields_end end = refl
append_fields_end (field k v fs) = ap (field k v) (append_fields_end fs)

pub append-push_back :
    (x : Json) (acc xs : Items) → append_items (push_back x acc) xs ≡ append_items acc (cons x xs)
unfolding append_items
append-push_back x acc xs = rw (push_back-append x acc, append_items_assoc acc (cons x nil) xs) refl

pub next-item :
    (message : String) (acc : Items) (next : Bytes → Outcome (Items × Bytes)) (t : Bytes)
    → BeginsWith value_head t
    → next_entry b']' message acc next (b',' ∷ t) ≡ next t
unfolding next_entry
next-item message acc next t b = rw (no_space t b) refl

pub add_field-append :
    (key : Bytes) (v : Json) (fs : Fields)
    → AllBefore fs key
    → add_field key v fs ≡ ok (append_fields fs (field key v end))
unfolding add_field
add_field-append key v fs h = rw (add_field, emplace-append key v fs h) refl

pub member-step :
    (f depth : ℕ) (k : Bytes) (v : Json) (acc : Fields) (t rest : Bytes)
    → AllBefore acc k
    → BeginsWith value_head t
    → parse_value f depth t ≡ ok (v, rest)
    → stops rest ≡ true
    → parse_fields (suc f) depth acc (json_string k ++ (b':' ∷ t))
      ≡ next_entry b'}' "expected ',' or '}'"
          (append_fields acc (field k v end))
          (parse_fields f depth (append_fields acc (field k v end)))
          rest
unfolding parse_fields expect skip_space
member-step f depth k v acc t rest a b h e =
    rw
      (parse_string-json_string k (b':' ∷ t), h, add_field-append k v acc a, stops_not_space rest e)
      refl

pub next-member :
    (message : String) (acc : Fields) (next : Bytes → Outcome (Fields × Bytes)) (k t : Bytes)
    → next_entry b'}' message acc next (b',' ∷ json_string k ++ t) ≡ next (json_string k ++ t)
unfolding next_entry json_string skip_space
next-member message acc next k t = refl

pub items_bounds :
    (x : Json) (xs : Items) (f depth : ℕ)
    → calls_items (cons x xs) ≤ suc f
    → depth + nesting_items (cons x xs) ≤ 65
    → (calls x ≤ f)
      × (calls_items xs ≤ f)
      × (depth + nesting x ≤ 64)
      × (depth + nesting_items xs ≤ 65)
unfolding calls nesting
items_bounds x xs f depth c d = (omega arith, omega arith, omega arith, omega arith)

pub fields_bounds :
    (k : Bytes) (v : Json) (fs : Fields) (f depth : ℕ)
    → calls_fields (field k v fs) ≤ suc f
    → depth + nesting_fields (field k v fs) ≤ 65
    → (calls v ≤ f)
      × (calls_fields fs ≤ f)
      × (depth + nesting v ≤ 64)
      × (depth + nesting_fields fs ≤ 65)
unfolding calls nesting
fields_bounds k v fs f depth c d = (omega arith, omega arith, omega arith, omega arith)

pub opens_items :
    (on_members : Bytes → Outcome (Fields × Bytes)) (on_items : Bytes → Outcome (Items × Bytes))
    (t : Bytes)
    → BeginsWith value_head t
    → parse_token on_members on_items (skip_json_space (b'[' ∷ t)) ≡ (on_items t >>= array_value)
opens_items on_members on_items [] b = elim b [ ]
opens_items on_members on_items (c ∷ s) b = token-array on_members on_items c s b

pub shallow : (depth inner : ℕ) → depth + inner ≤ 64 → ltb maximum_json_depth depth ≡ false
shallow depth inner d = ground arith
