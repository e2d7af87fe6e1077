-- ===== src/Observation/Compact.antt =====
-- `compact_json`: the spaces outside of strings are dropped.
use mcp_observatory.Prelude.{ℕ, ◌==◌, if◌then◌else◌, Bytes, Bool, true, not, ◌||◌, [], ◌∷◌}

-- the flags of the loop; `escaped` has a meaning only inside a string
pub data Place : Type 0 where
  outside inside escaped : Place

abbrev pub is_blank : ℕ → Bool
is_blank c = c == b' ' || c == b'\t' || c == b'\r' || c == b'\n'

-- what the flags are behind a byte
unfoldable pub move : Place → ℕ → Place
move outside c = if c == b'"' then inside else outside
move inside c = if c == b'\\' then escaped else if c == b'"' then outside else inside
move escaped c = inside

-- whether a byte is pushed
unfoldable pub kept : Place → ℕ → Bool
kept outside c = not (is_blank c)
kept inside c = true
kept escaped c = true

-- the loop; the output is consed in front, in the order of the pushes
unfoldable pub compact : Place → Bytes → Bytes
compact place [] = []
compact place (c ∷ s) =
    let rest = compact (move place c) s in if kept place c then c ∷ rest else rest

unfoldable pub compact_json : Bytes → Bytes
compact_json = compact outside
