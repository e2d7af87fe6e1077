-- ===== src/Registry/Json/Total.antt =====
-- `parse` ends on every text, with a value in normal form or a message.
use mcp_observatory.Prelude.{
  Bytes, ltb, Ensures, holds, rejected, Ensures-weaken, Ensures-branch, ℕ, ◌+◌, ◌≤◌, ◌≡◌, arith,
  length, Ensures-bind, suc, refl, null, ok, Ensures-ok, zero, ◌*◌, ◌<◌, Ensures-require,
}
use mcp_observatory.Scan.Tail.{length-IsTail, length-IsRest}
use mcp_observatory.Registry.Json.Encoding.{IsWhole, IsWhole-valid_utf8, valid_utf8-IsWhole}
use mcp_observatory.Registry.Json.Leaves.{skip_space-Leaves}
use mcp_observatory.Registry.Json.Model.{Json, Items, Fields, nil, end, push_back}
use mcp_observatory.Registry.Json.Normal.{IsNormal, nesting}
use mcp_observatory.Registry.Json.Normalizes.{
  GoodFields, GoodItems, add_field-GoodFields, push_back-GoodItems,
}
use mcp_observatory.Registry.Json.Parser.{
  skip_json_space, maximum_json_depth, parse_value, parse_fields, parse_items, parse_document,
  parse_json,
}
use mcp_observatory.Registry.Json.Decoded.{parse_string-Continues}
use mcp_observatory.Registry.Json.Canonical.{parse_json-canonical_json}
use mcp_observatory.Registry.Json.Token.{parse_token-Yields}
use mcp_observatory.Registry.Json.Utf8.{valid_utf8}
use mcp_observatory.Registry.Json.Writer.{canonical_json}
use mcp_observatory.Registry.Json.Yields.{
  Yields, GoodValue, Drops-right, Drops-then, Leaves-then, expect-Drops, next_entry-Yields,
}

-- One induction on the fuel; a loop is entered with a byte less than its container.
mutual
  unfolding parse_value IsNormal nesting

  parse_value-Yields :
      (f depth : ℕ) (s : Bytes)
      → 2 * length s < f
      → IsWhole s
      → Ensures (Yields (GoodValue depth) s) (parse_value f depth s)
  parse_value-Yields zero depth s b g = absurd (omega arith)
  parse_value-Yields (suc f) depth s b g =
      Ensures-branch (ltb maximum_json_depth depth) (λ _. rejected)
        λ h.
          let (l, w) = skip_space-Leaves s g in
          Ensures-weaken
            (parse_token-Yields depth _ _ (skip_json_space s) (ground arith) w
              (λ t d.
                parse_fields-Yields f (depth + 1) end t
                  (omega (arith, length-IsRest d.0, length-IsTail l, b)) d.1 (tt, ground arith))
              (λ t d.
                parse_items-Yields f (depth + 1) nil t
                  (omega (arith, length-IsRest d.0, length-IsTail l, b)) d.1 (tt, ground arith)))
            λ p (n, d). (n, Drops-right _ _ _ d (l, w))

  parse_fields-Yields :
      (f depth : ℕ) (fs : Fields) (s : Bytes)
      → 2 * length s + 1 < f
      → IsWhole s
      → GoodFields depth fs
      → Ensures (Yields (GoodFields depth) s) (parse_fields f depth fs s)
  parse_fields-Yields zero depth fs s b g n = absurd (omega arith)
  parse_fields-Yields (suc f) depth fs s b g n =
      Ensures-bind (parse_string-Continues s g) λ p (u, kd).
        let (l, w) = skip_space-Leaves p.1 kd.1 in
        Ensures-bind
          (expect-Drops b':' "expected ':' after object key" (skip_json_space p.1) refl w)
          λ t td.
            let read = Drops-then _ _ _ (Drops-right _ _ _ td (l, w)) kd in
            Ensures-bind (parse_value-Yields f depth t (omega (arith, length-IsRest read.0)) read.1)
              λ v ((nv, dv), vd).
                Ensures-bind
                  (add_field-GoodFields depth p.0 v.0 fs (IsWhole-valid_utf8 p.0 u) nv dv n)
                  λ more m.
                    let behind_value = Drops-then _ _ _ vd read in
                    next_entry-Yields (GoodFields depth) b'}' _ more (parse_fields f depth more)
                      (skip_json_space v.1) s refl m
                      (Leaves-then _ _ _ (skip_space-Leaves v.1 vd.1) behind_value)
                      λ r rd.
                        parse_fields-Yields f depth more r (omega (arith, length-IsRest rd.0)) rd.1
                          m

  parse_items-Yields :
      (f depth : ℕ) (xs : Items) (s : Bytes)
      → 2 * length s + 1 < f
      → IsWhole s
      → GoodItems depth xs
      → Ensures (Yields (GoodItems depth) s) (parse_items f depth xs s)
  parse_items-Yields zero depth xs s b g n = absurd (omega arith)
  parse_items-Yields (suc f) depth xs s b g n =
      Ensures-bind (parse_value-Yields f depth s (omega arith) g) λ v ((nv, dv), vd).
        let m = push_back-GoodItems depth v.0 xs nv dv n in
        next_entry-Yields (GoodItems depth) b']' _ (push_back v.0 xs)
          (parse_items f depth (push_back v.0 xs)) (skip_json_space v.1) s refl m
          (Leaves-then _ _ _ (skip_space-Leaves v.1 vd.1) vd)
          λ r rd.
            parse_items-Yields f depth (push_back v.0 xs) r (omega (arith, length-IsRest rd.0)) rd.1
              m

-- On every text the strict parser ends, with a message or with a value whose strings and keys are
-- UTF-8, whose numbers are texts of JSON numbers, whose keys strictly ascend and that is nested at
-- most 64 deep.
pub parse_json-IsNormal : (s : Bytes) → Ensures (λ v. IsNormal v × (nesting v ≤ 64)) (parse_json s)
unfolding parse_json parse_document
parse_json-IsNormal s = Ensures-require (valid_utf8 s) _ λ h.
    let (l, w) = skip_space-Leaves s (valid_utf8-IsWhole s h) in
    Ensures-bind (parse_value-Yields _ 0 (skip_json_space s) (omega (arith, length-IsTail l)) w)
      λ p ((n, d), r). Ensures-require (null (skip_json_space p.1)) _ λ _. holds (n, omega arith)

-- Whatever text the strict parser accepts, the canonical form of its value is accepted too, with
-- the same value.
pub parse_json-stable :
    (s : Bytes) (v : Json) → parse_json s ≡ ok v → parse_json (canonical_json v) ≡ ok v
parse_json-stable s v h =
    let (n, d) = Ensures-ok (parse_json-IsNormal s) h in parse_json-canonical_json v n d
