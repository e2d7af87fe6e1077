-- ===== src/Registry/Json/Token.antt =====
-- `parse_value` behind its spaces, from what its loops yield.
use mcp_observatory.Prelude.{
  Bytes, ◌==◌, Outcome, Ensures, holds, rejected, Ensures-branch, ℕ, ◌+◌, ◌≤◌, ◌≡◌, true, [], ◌∷◌,
  arith, ascii, length, take, drop, equal, starts_with, ◌>>=◌, Ensures-bind, Ensures-both, suc,
  refl, false,
}
use mcp_observatory.Scan.Tail.{here, there, behind}
use mcp_observatory.Registry.Json.Characters.{Leaves, IsWhole-tail}
use mcp_observatory.Registry.Json.Encoding.{IsWhole, IsAscii, IsWhole-valid_utf8}
use mcp_observatory.Registry.Json.Leaves.{Drops, skip_space-Leaves, parse_number-Drops}
use mcp_observatory.Registry.Json.Model.{
  Json, Items, Fields, null_value, boolean, text, number, nil, end,
}
use mcp_observatory.Registry.Json.Normal.{IsNormal, nesting}
use mcp_observatory.Registry.Json.Normalizes.{GoodFields, GoodItems}
use mcp_observatory.Registry.Json.Parser.{
  parse_word, parse_token, skip_json_space, text_value, number_value, array_value, object_value,
}
use mcp_observatory.Registry.Json.Decoded.{parse_string-Continues}
use mcp_observatory.Registry.Json.NumberText.{parse_number-again}
use mcp_observatory.Registry.Json.Numbers.{parse_number}
use mcp_observatory.Registry.Json.Strings.{parse_string}
use mcp_observatory.Registry.Json.Yields.{Yields, GoodValue, Loops, open_container-Yields}

prefix-Leaves :
    (p s : Bytes)
    → IsAscii p
    → equal (take (length p) s) p ≡ true
    → IsWhole s
    → Leaves (drop (length p) s) s
unfolding equal
prefix-Leaves [] s a e g = (here, g)
prefix-Leaves (d ∷ p) [] a e g = cc
prefix-Leaves (d ∷ p) (c ∷ s) (h, a) e g =
    let (l, w) = prefix-Leaves p s a (ground arith) (IsWhole-tail c s (ground arith) g) in
    (there l, w)

pub word-Drops :
    (d : ℕ) (p s : Bytes)
    → IsAscii (d ∷ p)
    → starts_with s (d ∷ p) ≡ true
    → IsWhole s
    → Drops (drop (suc (length p)) s) s
unfolding equal starts_with
word-Drops d p [] a e g = cc
word-Drops d p (c ∷ s) (h, a) e g =
    let (l, w) = prefix-Leaves p s a (ground arith) (IsWhole-tail c s (ground arith) g) in
    (behind l, w)

-- a value without elements
plain_value : (depth : ℕ) (v : Json) → depth ≤ 64 → IsNormal v → nesting v ≡ 0 → GoodValue depth v
plain_value depth v b n e = (n, omega arith)

pub number-GoodValue :
    (depth : ℕ) (s : Bytes)
    → depth ≤ 64
    → IsWhole s
    → Ensures (Yields (GoodValue depth) s) (parse_number s >>= number_value)
unfolding number_value IsNormal nesting
number-GoodValue depth s b g =
    Ensures-bind (Ensures-both (parse_number-again s) (parse_number-Drops s g))
      λ p (n, d). holds (plain_value depth (number p.0) b n refl, d)

pub parse_word-Yields :
    (depth : ℕ) (s : Bytes)
    → depth ≤ 64
    → IsWhole s
    → Ensures (Yields (GoodValue depth) s) (parse_word s)
unfolding parse_word ascii IsNormal nesting
parse_word-Yields depth s b g =
    Ensures-branch (starts_with s (ascii "true"))
      (λ e. holds (
        plain_value depth (boolean true) b tt refl,
        word-Drops b't' (ascii "rue") s (refl, (refl, (refl, (refl, tt)))) e g,
      ))
      (λ _.
        Ensures-branch (starts_with s (ascii "false"))
          (λ e. holds (
            plain_value depth (boolean false) b tt refl,
            word-Drops b'f' (ascii "alse") s (refl, (refl, (refl, (refl, (refl, tt))))) e g,
          ))
          (λ _.
            Ensures-branch (starts_with s (ascii "null"))
              (λ e. holds (
                plain_value depth null_value b tt refl,
                word-Drops b'n' (ascii "ull") s (refl, (refl, (refl, (refl, tt)))) e g,
              ))
              (λ _. number-GoodValue depth s b g)))

pub text-GoodValue :
    (depth : ℕ) (s : Bytes)
    → depth ≤ 64
    → IsWhole s
    → Ensures (Yields (GoodValue depth) s) (parse_string s >>= text_value)
unfolding text_value IsNormal nesting
text-GoodValue depth s b g =
    Ensures-bind (parse_string-Continues s g)
      λ p (w, d). holds (plain_value depth (text p.0) b (IsWhole-valid_utf8 p.0 w) refl, d)

pub parse_token-Yields :
    (depth : ℕ) (on_members : Bytes → Outcome (Fields × Bytes))
    (on_items : Bytes → Outcome (Items × Bytes)) (s : Bytes)
    → depth ≤ 64
    → IsWhole s
    → Loops (GoodFields (depth + 1)) s on_members
    → Loops (GoodItems (depth + 1)) s on_items
    → Ensures (Yields (GoodValue depth) s) (parse_token on_members on_items s)
unfolding parse_token object_value array_value IsNormal nesting
parse_token-Yields depth on_members on_items [] b g f h = rejected
parse_token-Yields depth on_members on_items (c ∷ s) b g f h =
    Ensures-branch (c == b'"') (λ _. text-GoodValue depth (c ∷ s) b g)
      (λ _.
        Ensures-branch (c == b'{')
          (λ e.
            let (l, w) = skip_space-Leaves s (IsWhole-tail c s (ground arith) g) in
            Ensures-bind
              (open_container-Yields (GoodFields (depth + 1)) b'}' end on_members
                (skip_json_space s) (c ∷ s) refl (tt, omega arith) (behind l, w) f)
              λ p ((n, d), k). holds ((n, omega arith), k))
          (λ _.
            Ensures-branch (c == b'[')
              (λ e.
                let (l, w) = skip_space-Leaves s (IsWhole-tail c s (ground arith) g) in
                Ensures-bind
                  (open_container-Yields (GoodItems (depth + 1)) b']' nil on_items
                    (skip_json_space s) (c ∷ s) refl (tt, omega arith) (behind l, w) h)
                  λ p ((n, d), k). holds ((n, omega arith), k))
              (λ _. parse_word-Yields depth (c ∷ s) b g)))
