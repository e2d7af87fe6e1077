-- ===== src/Scan/Plain.antt =====
-- What a plain string holds.
use mcp_observatory.Prelude.{
  ℕ, ltb, ◌==◌, Bytes, All, Ensures, holds, rejected, Ensures-bind, Ensures-weaken, Ensures-branch,
  ◌≡◌, ap, Bool, true, not, ◌||◌, [], ◌∷◌, arith, leb, ==→eq, ◌&&◌, ◌++◌,
}
use mcp_observatory.Scan.Fuel.{expect-Shortens}
use mcp_observatory.Scan.Lexer.{Dialect, plain_body, plain_string, expect}

-- a byte that stands for itself in a JSON string
abbrev pub is_plain : ℕ → Bool
is_plain c = not (c == b'"') && not (c == b'\\') && leb 0x20 c

-- The string that was read: its bytes are plain, and it stands before a quote.
pub record IsPlainString (s : Bytes) (p : Bytes × Bytes) : Type 0 where
  pub plain : All (λ c. is_plain c ≡ true) p.0
  pub text : s ≡ p.0 ++ b'"' ∷ p.1

plain_body-IsPlainString :
    (dialect : Dialect) (s : Bytes) → Ensures (IsPlainString s) (plain_body dialect s)
unfolding plain_body
plain_body-IsPlainString dialect [] = rejected
plain_body-IsPlainString dialect (c ∷ s) =
    Ensures-branch (c == b'"')
      (λ e. holds (record { plain = tt; text = ap (λ x. x ∷ s) (==→eq c b'"' e) }))
      (λ n.
        Ensures-branch (c == b'\\' || ltb c 0x20) (λ _. rejected)
          (λ k. Ensures-bind (plain_body-IsPlainString dialect s) λ (v, r) h.
            holds (record { plain = (ground arith, h.plain); text = ap (◌∷◌ c) h.text })))

plain_string-inside :
    (dialect : Dialect) (s : Bytes)
    → Ensures (λ p. (t : Bytes) × IsPlainString t p) (plain_string dialect s)
unfolding plain_string
plain_string-inside dialect s =
    Ensures-bind (expect-any s)
      λ t _. Ensures-weaken (plain_body-IsPlainString dialect t) λ p h. (t, h)
  where
    expect-any : (s : Bytes) → Ensures (λ _. Unit {0}) (expect b'"' "expected JSON string" s)
    expect-any s = Ensures-weaken (expect-Shortens b'"' _ s) λ _ _. tt

-- A string that was read holds neither quotes, backslashes nor control bytes.
pub plain_string-plain :
    (dialect : Dialect) (s : Bytes)
    → Ensures (λ p. All (λ c. is_plain c ≡ true) p.0) (plain_string dialect s)
plain_string-plain dialect s = Ensures-weaken (plain_string-inside dialect s) λ p h. h.1.plain
