-- ===== src/Registry/Json/Encoding.antt =====
-- The canonical form is UTF-8.
use mcp_observatory.Prelude.{
  Bytes, ltb, ℕ, ◌≡◌, refl, true, Option, none, some, [], ◌∷◌, ◌++◌, arith, sym, ap, ◌∙◌, ◌⊎◌, inl,
  inr,
}
use mcp_observatory.Registry.Json.Utf8.{
  Utf8, ready, pending, first_byte, next_byte, utf8_from, valid_utf8, is_ready,
}
use mcp_observatory.Registry.Json.Writer.{escaped_byte, escaped_text, json_string}
use mcp_observatory.Registry.Json.Heads.{BeginsWith}

pub utf8_from-append :
    (u : Option Utf8) (s t : Bytes) → utf8_from u (s ++ t) ≡ utf8_from (utf8_from u s) t
unfolding utf8_from
utf8_from-append none s t = refl
utf8_from-append (some u) [] t = refl
utf8_from-append (some u) (c ∷ s) t = utf8_from-append (next_byte u c) s t

abbrev pub IsAscii : Bytes → Type 0
IsAscii [] = Unit
IsAscii (c ∷ s) = (ltb c 0x80 ≡ true) × IsAscii s

pub next_byte-ascii : (c : ℕ) → ltb c 0x80 ≡ true → next_byte ready c ≡ some ready
unfolding next_byte first_byte
next_byte-ascii c h = ground arith

pending-ascii : (l n v c : ℕ) → ltb c 0x80 ≡ true → next_byte (pending l n v) c ≡ none
unfolding next_byte
pending-ascii l n v c h = ground arith

utf8_from-ascii : (s : Bytes) → IsAscii s → utf8_from (some ready) s ≡ some ready
unfolding utf8_from
utf8_from-ascii [] h = refl
utf8_from-ascii (c ∷ s) (h, hs) =
    ap (λ u. utf8_from u s) (next_byte-ascii c h) ∙ utf8_from-ascii s hs

pub utf8_from-pending :
    (l n v c : ℕ) (s : Bytes) → ltb c 0x80 ≡ true → utf8_from (some (pending l n v)) (c ∷ s) ≡ none
unfolding utf8_from
utf8_from-pending l n v c s h = ap (λ u. utf8_from u s) (pending-ascii l n v c h)

-- Where a character ends, ASCII text may stand for an ASCII byte; elsewhere both are wrong.
swap_ascii :
    (u : Utf8) (c d : ℕ) (e : Bytes)
    → ltb c 0x80 ≡ true
    → IsAscii (d ∷ e)
    → utf8_from (some u) (d ∷ e) ≡ utf8_from (some u) (c ∷ [])
swap_ascii ready c d e h a = utf8_from-ascii (d ∷ e) a ∙ sym (utf8_from-ascii (c ∷ []) (h, tt))
swap_ascii (pending l n v) c d e h a =
    utf8_from-pending l n v d e a.0 ∙ sym (utf8_from-pending l n v c [] h)

-- an escape of a byte, and that byte
abbrev Escapes : Bytes → ℕ → Type 0
Escapes e c = (e ≡ c ∷ []) ⊎ ((ltb c 0x80 ≡ true) × IsAscii e × BeginsWith (λ d. true) e)

escaped_byte-Escapes : (c : ℕ) → Escapes (escaped_byte c) c
unfolding escaped_byte
escaped_byte-Escapes c = ground arith

escaped_byte-utf8 : (o : Option Utf8) (c : ℕ) → utf8_from o (escaped_byte c) ≡ utf8_from o (c ∷ [])
unfolding utf8_from
escaped_byte-utf8 none c = refl
escaped_byte-utf8 (some u) c = elim (escaped_byte-Escapes c) [
  | inl same ↦ ap (utf8_from (some u)) same
  | inr (h, a, b) ↦ by_head u c (escaped_byte c) h a b
]
  where
    by_head :
        (u : Utf8) (c : ℕ) (e : Bytes)
        → ltb c 0x80 ≡ true
        → IsAscii e
        → BeginsWith (λ d. true) e
        → utf8_from (some u) e ≡ utf8_from (some u) (c ∷ [])
    by_head u c [] h a b = elim b [ ]
    by_head u c (d ∷ e) h a b = swap_ascii u c d e h a

escaped_text-utf8 : (o : Option Utf8) (s : Bytes) → utf8_from o (escaped_text s) ≡ utf8_from o s
unfolding escaped_text
escaped_text-utf8 o [] = refl
escaped_text-utf8 o (c ∷ s) =
    utf8_from-append o (escaped_byte c) (escaped_text s)
    ∙ ap (λ p. utf8_from p (escaped_text s)) (escaped_byte-utf8 o c)
    ∙ escaped_text-utf8 (utf8_from o (c ∷ [])) s
    ∙ sym (utf8_from-append o (c ∷ []) s)

-- between characters before and after the text
abbrev pub IsWhole : Bytes → Type 0
IsWhole s = utf8_from (some ready) s ≡ some ready

is_ready-true : (o : Option Utf8) → is_ready o ≡ true → o ≡ some ready
is_ready-true none h = cc
is_ready-true (some ready) h = refl
is_ready-true (some (pending l n v)) h = cc

pub valid_utf8-IsWhole : (s : Bytes) → valid_utf8 s ≡ true → IsWhole s
unfolding valid_utf8
valid_utf8-IsWhole s h = is_ready-true (utf8_from (some ready) s) h

pub IsWhole-valid_utf8 : (s : Bytes) → IsWhole s → valid_utf8 s ≡ true
unfolding valid_utf8
IsWhole-valid_utf8 s h = rw h refl

pub IsWhole-append : (s t : Bytes) → IsWhole s → IsWhole t → IsWhole (s ++ t)
IsWhole-append s t h k = utf8_from-append (some ready) s t ∙ ap (λ o. utf8_from o t) h ∙ k

pub IsWhole-ascii : (s : Bytes) → IsAscii s → IsWhole s
IsWhole-ascii s a = utf8_from-ascii s a

pub IsWhole-json_string : (s : Bytes) → IsWhole s → IsWhole (json_string s)
unfolding json_string
IsWhole-json_string s h =
    IsWhole-append (b'"' ∷ []) (escaped_text s ++ b'"' ∷ []) (IsWhole-ascii _ (refl, tt)) (
      IsWhole-append (escaped_text s) (b'"' ∷ []) (escaped_text-utf8 (some ready) s ∙ h)
        (IsWhole-ascii _ (refl, tt)))
