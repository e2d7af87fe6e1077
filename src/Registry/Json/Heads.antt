-- ===== src/Registry/Json/Heads.antt =====
-- What the canonical text of a normal value begins with, and what stands behind its elements.
use mcp_observatory.Prelude.{
  Bytes, ascii, Outcome, ok, ℕ, ◌≡◌, refl, Bool, true, false, [], ◌∷◌, ◌++◌, arith,
}
use mcp_observatory.Scan.{skip_space}
use mcp_observatory.Registry.Json.Model.{
  Json, null_value, boolean, text, number, array, object, Items, nil, cons, Fields, end, field,
}
use mcp_observatory.Registry.Json.Normal.{IsNormal, written, written_items, written_fields}
use mcp_observatory.Registry.Json.NumberTrip.{stops, parse_number-append}
use mcp_observatory.Registry.Json.Numbers.{parse_number}
use mcp_observatory.Registry.Json.Parser.{skip_json_space, number_value, parse_token}
use mcp_observatory.Registry.Json.Tokens.{
  number_head, value_head, head_not_space, number-head-nil, number-head, opens_word, word_number,
  number-value_head,
}
use mcp_observatory.Registry.Json.Writer.{json_string}

-- a text whose first byte satisfies a test
abbrev pub BeginsWith : (ℕ → Bool) → Bytes → Type 0
BeginsWith test [] = ⊥
BeginsWith test (c ∷ s) = test c ≡ true

number-BeginsWith :
    (s rest : Bytes) → parse_number s ≡ ok (s, []) → BeginsWith number_head (s ++ rest)
number-BeginsWith [] rest h = elim (number-head-nil [] h) [ ]
number-BeginsWith (c ∷ s) rest h = number-head c s _ h

pub token-number :
    (on_members : Bytes → Outcome (Fields × Bytes)) (on_items : Bytes → Outcome (Items × Bytes))
    (s rest : Bytes)
    → parse_number s ≡ ok (s, [])
    → stops rest ≡ true
    → parse_token on_members on_items (skip_json_space (s ++ rest)) ≡ ok (number s, rest)
unfolding number_value
token-number on_members on_items [] rest h e = elim (number-head-nil [] h) [ ]
token-number on_members on_items (c ∷ s) rest h e =
    let head = number-head c s _ h in
    rw
      (
        head_not_space c (s ++ rest) (number-value_head c head),
        opens_word on_members on_items c (s ++ rest) head,
        word_number c (s ++ rest) head,
        parse_number-append rest e (c ∷ s),
        h,
      )
      refl

pub written-BeginsWith :
    (v : Json) (rest : Bytes) → IsNormal v → BeginsWith value_head (written v rest)
unfolding written ascii json_string value_head number_head IsNormal
written-BeginsWith null_value rest n = refl
written-BeginsWith (boolean true) rest n = refl
written-BeginsWith (boolean false) rest n = refl
written-BeginsWith (text s) rest n = refl
written-BeginsWith (number []) rest n = elim (number-head-nil [] n) [ ]
written-BeginsWith (number (c ∷ s)) rest n = number-value_head c (number-head c s _ n)
written-BeginsWith (array nil) rest n = refl
written-BeginsWith (array (cons x xs)) rest n = refl
written-BeginsWith (object end) rest n = refl
written-BeginsWith (object (field k v fs)) rest n = refl

-- behind an element stands no space
pub stops_items : (xs : Items) (rest : Bytes) → stops (written_items xs (b']' ∷ rest)) ≡ true
unfolding written
stops_items nil rest = refl
stops_items (cons x xs) rest = refl

pub stops_fields : (fs : Fields) (rest : Bytes) → stops (written_fields fs (b'}' ∷ rest)) ≡ true
unfolding written
stops_fields end rest = refl
stops_fields (field k v fs) rest = refl

pub stops_not_space : (rest : Bytes) → stops rest ≡ true → skip_json_space rest ≡ rest
unfolding skip_space
stops_not_space [] h = refl
stops_not_space (c ∷ s) h = ground arith
