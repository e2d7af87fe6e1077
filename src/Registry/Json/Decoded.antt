-- ===== src/Registry/Json/Decoded.antt =====
-- What `parse_string` decodes from UTF-8 is UTF-8, and so is what it leaves.
use mcp_observatory.Prelude.{
  Bytes, ◌==◌, within, Ensures, holds, rejected, Ensures-bind, Ensures-weaken, Ensures-require,
  Ensures-branch, ℕ, ◌≤◌, ◌≡◌, true, ◌&&◌, [], ◌∷◌, arith, ltb, ok, err, Option, none, some, length,
  Outcome, ◌>>=◌, zero, suc, ◌+◌, ◌-◌, ◌*◌, ◌<◌, refl, sym, ap, ◌∙◌, OnSome,
}
use mcp_observatory.Scan.Tail.{
  IsRest-right, IsRest-IsTail, here, there, IsTail-trans, IsRest, behind, length-IsTail,
}
use mcp_observatory.Registry.Json.Characters.{
  IsWhole-tail, utf8_bytes-IsWhole, Leaves, hex4-Ensures, IsScalar,
}
use mcp_observatory.Registry.Json.Encoding.{
  IsWhole, IsWhole-ascii, utf8_from-pending, IsWhole-append,
}
use mcp_observatory.Registry.Json.Strings.{
  backslash_u, low_surrogate, escaped_character, unicode_escape, escape, simple_escape, prepend_all,
  string_loop, parse_string,
}
use mcp_observatory.Registry.Json.Utf8.{Utf8, ready, pending, next_byte, utf8_from}

backslash_u-Leaves : (s : Bytes) → IsWhole s → Ensures (λ r. Leaves r s) (backslash_u s)
unfolding backslash_u
backslash_u-Leaves [] g = rejected
backslash_u-Leaves (a ∷ []) g = rejected
backslash_u-Leaves (a ∷ b ∷ s) g =
    Ensures-branch (a == b'\\' && b == b'u')
      (λ h. holds (
        there (there here),
        IsWhole-tail b s (ground arith) (IsWhole-tail a (b ∷ s) (ground arith) g),
      ))
      (λ h. rejected)

-- a character, and the rest behind its escape
abbrev Decodes : Bytes → Bytes × Bytes → Type 0
Decodes s p = IsWhole p.0 × Leaves p.1 s

pair-IsScalar :
    (first second : ℕ)
    → within 0xd800 0xdbff first ≡ true
    → within 0xdc00 0xdfff second ≡ true
    → IsScalar (0x10000 + (first - 0xd800) * 1024 + (second - 0xdc00))
pair-IsScalar first second h k = (ground arith, ground arith)

low_surrogate-Decodes :
    (first : ℕ) (s : Bytes)
    → within 0xd800 0xdbff first ≡ true
    → IsWhole s
    → Ensures (Decodes s) (low_surrogate first s)
unfolding low_surrogate
low_surrogate-Decodes first s h g = Ensures-bind (backslash_u-Leaves s g) λ low (t, w).
    Ensures-bind (hex4-Ensures _ low w) λ p (b, (u, x)).
      Ensures-require (within 0xdc00 0xdfff p.0) _
        λ k. holds (utf8_bytes-IsWhole _ (pair-IsScalar first p.0 h k), (IsTail-trans u t, x))

escaped_character-Decodes :
    (first : ℕ) (s : Bytes)
    → first ≤ 0xffff
    → IsWhole s
    → Ensures (Decodes s) (escaped_character (first, s))
unfolding escaped_character
escaped_character-Decodes first s b g =
    Ensures-branch (within 0xd800 0xdbff first) (λ h. low_surrogate-Decodes first s h g)
      (λ h.
        Ensures-branch (within 0xdc00 0xdfff first) (λ k. rejected)
          (λ k. holds (utf8_bytes-IsWhole first (omega arith, ground arith), (here, g))))

unicode_escape-Decodes : (s : Bytes) → IsWhole s → Ensures (Decodes s) (unicode_escape s)
unfolding unicode_escape
unicode_escape-Decodes s g = Ensures-bind (hex4-Ensures _ s g) λ p (b, (t, w)).
    Ensures-weaken (escaped_character-Decodes p.0 p.1 b w)
      λ q (d, (u, x)). (d, (IsTail-trans u t, x))

simple_escape-OnSome :
    (c : ℕ) → OnSome (λ x. (ltb c 0x80 ≡ true) × (ltb x 0x80 ≡ true)) (simple_escape c)
unfolding simple_escape
simple_escape-OnSome c = ground arith

escape-Decodes : (s : Bytes) → IsWhole s → Ensures (Decodes s) (escape s)
unfolding escape
escape-Decodes [] g = rejected
escape-Decodes (c ∷ s) g =
    Ensures-branch (c == b'u')
      (λ h.
        Ensures-weaken (unicode_escape-Decodes s (IsWhole-tail c s (ground arith) g))
          λ p (d, (t, w)). (d, (there t, w)))
      (λ h. by_letter (simple_escape c) (simple_escape-OnSome c))
  where
    by_letter :
        (o : Option ℕ)
        → OnSome (λ x. (ltb c 0x80 ≡ true) × (ltb x 0x80 ≡ true)) o
        → Ensures
            (Decodes (c ∷ s))
            (elim o [ none ↦ err "invalid JSON escape" | some x ↦ ok (x ∷ [], s) ])
    by_letter none k = rejected
    by_letter (some x) (a, b) =
        holds (IsWhole-ascii (x ∷ []) (b, tt), (there here, IsWhole-tail c s a g))

-- an ASCII byte stands where a character ends
at_ascii :
    (u : Utf8) (c : ℕ) (s : Bytes)
    → ltb c 0x80 ≡ true
    → utf8_from (some u) (c ∷ s) ≡ some ready
    → (u ≡ ready) × IsWhole s
at_ascii ready c s h g = (refl, IsWhole-tail c s h g)
at_ascii (pending l n v) c s h g = absurd (none-some (sym (utf8_from-pending l n v c s h) ∙ g))
  where
    none-some : none ≡ some ready → ⊥
    none-some e = cc

-- the decoded rest of a string whose text so far left the state `u`
abbrev Continues : Utf8 → Bytes → Bytes × Bytes → Type 0
Continues u s p = (utf8_from (some u) p.0 ≡ some ready) × (IsRest p.1 s × IsWhole p.1)

plain-Continues :
    (u : Utf8) (c : ℕ) (s : Bytes) (r : Outcome (Bytes × Bytes))
    → utf8_from (some u) (c ∷ s) ≡ some ready
    → ((v : Utf8) → utf8_from (some v) s ≡ some ready → Ensures (Continues v s) r)
    → Ensures (Continues u (c ∷ s)) (r >>= prepend_all (c ∷ []))
unfolding utf8_from
plain-Continues u c s r g f = by_state (next_byte u c) refl g
  where
    by_state :
        (o : Option Utf8)
        → next_byte u c ≡ o
        → utf8_from o s ≡ some ready
        → Ensures (Continues u (c ∷ s)) (r >>= prepend_all (c ∷ []))
    by_state none e h = cc
    by_state (some v) e h =
        Ensures-bind (f v h)
          λ p (d, (t, w)). holds (ap (λ o. utf8_from o p.0) e ∙ d, (behind (IsRest-IsTail t), w))

at_ready : (u : Utf8) → u ≡ ready → (s : Bytes) → IsWhole s → utf8_from (some u) s ≡ some ready
at_ready u e s w = ap (λ v. utf8_from (some v) s) e ∙ w

string_loop-Continues :
    (f : ℕ) (u : Utf8) (s : Bytes)
    → length s < f
    → utf8_from (some u) s ≡ some ready
    → Ensures (Continues u s) (string_loop f s)
unfolding string_loop utf8_from
string_loop-Continues zero u s b g = absurd (omega arith)
string_loop-Continues (suc f) u [] b g = rejected
string_loop-Continues (suc f) u (c ∷ s) b g =
    Ensures-branch (c == b'"')
      (λ h. let (e, w) = at_ascii u c s (ground arith) g in holds (ap some e, (behind here, w)))
      (λ h.
        Ensures-branch (ltb c 0x20) (λ k. rejected)
          (λ k.
            Ensures-branch (c == b'\\')
              (λ l.
                let (e, w) = at_ascii u c s (ground arith) g in
                Ensures-bind (escape-Decodes s w) λ p (d, (t, x)).
                  Ensures-bind
                    (string_loop-Continues f ready p.1 (omega (arith, length-IsTail t, b)) x)
                    λ q (d', (t', x')). holds (
                      at_ready u e _ (IsWhole-append p.0 q.0 d d'),
                      (behind (IsRest-IsTail (IsRest-right t' t)), x'),
                    ))
              (λ l.
                plain-Continues u c s (string_loop f s) g
                  λ v h. string_loop-Continues f v s (omega arith) h)))

pub parse_string-Continues : (s : Bytes) → IsWhole s → Ensures (Continues ready s) (parse_string s)
unfolding parse_string
parse_string-Continues [] g = rejected
parse_string-Continues (c ∷ s) g =
    Ensures-branch (c == b'"')
      (λ h.
        Ensures-weaken
          (string_loop-Continues (suc (length s)) ready s (omega arith)
            (IsWhole-tail c s (ground arith) g))
          λ p (d, (t, w)). (d, (behind (IsRest-IsTail t), w)))
      (λ h. rejected)
