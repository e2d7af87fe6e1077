-- ===== src/Registry/Json/Depth.antt =====
-- Where a value is nested too deep, and what the loops do there.
use mcp_observatory.Prelude.{
  Bytes, leb, Bool-cases, leb→le, err, ℕ, suc, ◌+◌, ◌≤◌, String, ◌≡◌, refl, ◌⊎◌, inl, inr, true,
  ◌∷◌, ◌++◌, arith,
}
use mcp_observatory.Scan.{skip_space, expect}
use mcp_observatory.Registry.Json.Parser.{parse_value, next_entry, parse_fields, parse_items}
use mcp_observatory.Registry.Json.Model.{Json, Items, cons, Fields, field}
use mcp_observatory.Registry.Json.Normal.{
  IsNormal, AreNormal, HasNormal, nesting, nesting_items, nesting_fields, calls, calls_items,
  calls_fields, written, written_items, written_fields, AllBefore,
}
use mcp_observatory.Registry.Json.NumberTrip.{stops}
use mcp_observatory.Registry.Json.StringTrip.{parse_string-json_string}
use mcp_observatory.Registry.Json.Trip.{Follows}
use mcp_observatory.Registry.Json.Writer.{json_string}

abbrev pub too_deep : String
too_deep = "JSON nesting limit exceeded"

abbrev pub DeepValue : ℕ → Type 0
DeepValue f =
    (v : Json) (depth : ℕ) (rest : Bytes)
    → calls v ≤ f
    → 65 ≤ depth + nesting v
    → IsNormal v
    → stops rest ≡ true
    → parse_value f depth (written v rest) ≡ err too_deep

-- behind an element, in a container at an allowed depth
abbrev pub DeepItems : ℕ → Type 0
DeepItems f =
    (xs : Items) (depth : ℕ) (acc : Items) (rest : Bytes)
    → calls_items xs ≤ f
    → depth ≤ 65
    → 66 ≤ depth + nesting_items xs
    → AreNormal xs
    → next_entry b']' "expected ',' or ']'" acc (parse_items f depth acc)
        (written_items xs (b']' ∷ rest))
      ≡ err too_deep

abbrev pub DeepFields : ℕ → Type 0
DeepFields f =
    (fs : Fields) (depth : ℕ) (acc : Fields) (rest : Bytes)
    → calls_fields fs ≤ f
    → depth ≤ 65
    → 66 ≤ depth + nesting_fields fs
    → HasNormal fs
    → Follows acc fs
    → next_entry b'}' "expected ',' or '}'" acc (parse_fields f depth acc)
        (written_fields fs (b'}' ∷ rest))
      ≡ err too_deep

-- from an element on
abbrev pub DeepItemsFrom : ℕ → Type 0
DeepItemsFrom f =
    (x : Json) (xs : Items) (depth : ℕ) (acc : Items) (rest : Bytes)
    → calls_items (cons x xs) ≤ f
    → depth ≤ 65
    → 66 ≤ depth + nesting_items (cons x xs)
    → AreNormal (cons x xs)
    → parse_items f depth acc (written x (written_items xs (b']' ∷ rest))) ≡ err too_deep

abbrev pub DeepFieldsFrom : ℕ → Type 0
DeepFieldsFrom f =
    (k : Bytes) (v : Json) (fs : Fields) (depth : ℕ) (acc : Fields) (rest : Bytes)
    → calls_fields (field k v fs) ≤ f
    → depth ≤ 65
    → 66 ≤ depth + nesting_fields (field k v fs)
    → HasNormal (field k v fs)
    → AllBefore acc k
    → parse_fields f depth acc
        (json_string k ++ (b':' ∷ written v (written_fields fs (b'}' ∷ rest))))
      ≡ err too_deep

-- the first element that is too deep, or a later one
pub items_split :
    (x : Json) (xs : Items) (f depth : ℕ)
    → calls_items (cons x xs) ≤ suc f
    → 66 ≤ depth + nesting_items (cons x xs)
    → (calls x ≤ f)
      × (calls_items xs ≤ f)
      × ((65 ≤ depth + nesting x) ⊎ ((depth + nesting x ≤ 64) × (66 ≤ depth + nesting_items xs)))
unfolding calls nesting
items_split x xs f depth c d = (omega arith, omega arith, which)
  where
    which : (65 ≤ depth + nesting x) ⊎ ((depth + nesting x ≤ 64) × (66 ≤ depth + nesting_items xs))
    which = elim (Bool-cases (leb 65 (depth + nesting x))) [
      | inl h ↦ inl (leb→le _ _ h)
      | inr h ↦ inr (ground arith, ground arith)
    ]

pub fields_split :
    (k : Bytes) (v : Json) (fs : Fields) (f depth : ℕ)
    → calls_fields (field k v fs) ≤ suc f
    → 66 ≤ depth + nesting_fields (field k v fs)
    → (calls v ≤ f)
      × (calls_fields fs ≤ f)
      × ((65 ≤ depth + nesting v) ⊎ ((depth + nesting v ≤ 64) × (66 ≤ depth + nesting_fields fs)))
unfolding calls nesting
fields_split k v fs f depth c d = (omega arith, omega arith, which)
  where
    which : (65 ≤ depth + nesting v) ⊎ ((depth + nesting v ≤ 64) × (66 ≤ depth + nesting_fields fs))
    which = elim (Bool-cases (leb 65 (depth + nesting v))) [
      | inl h ↦ inl (leb→le _ _ h)
      | inr h ↦ inr (ground arith, ground arith)
    ]

pub deep_item :
    (f depth : ℕ) (acc : Items) (t : Bytes)
    → parse_value f depth t ≡ err too_deep
    → parse_items (suc f) depth acc t ≡ err too_deep
unfolding parse_items
deep_item f depth acc t h = rw h refl

pub deep_member :
    (f depth : ℕ) (k : Bytes) (acc : Fields) (t : Bytes)
    → parse_value f depth t ≡ err too_deep
    → parse_fields (suc f) depth acc (json_string k ++ (b':' ∷ t)) ≡ err too_deep
unfolding parse_fields expect skip_space
deep_member f depth k acc t h = rw (parse_string-json_string k (b':' ∷ t), h) refl
