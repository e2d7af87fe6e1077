-- ===== src/Archive/Octal.antt =====
-- `parse_octal` of src/analyze.cpp.
use mcp_observatory.Prelude.{
  Bytes, ℕ, ◌==◌, if◌then◌else◌, within, ◌+◌, ◌-◌, ◌*◌, ◌%◌, ◌^◌, Bool, true, false, ◌||◌, [], ◌∷◌,
}

-- the loop: with digits seen, a space or a zero byte ends it; the value that it leaves is kept on
-- failure too
unfoldable pub octal_loop : Bool → ℕ → Bytes → Bool × ℕ
octal_loop saw value [] = (true, value)
octal_loop saw value (c ∷ text) =
    let later = octal_loop false value text in
    let next = octal_loop true ((value * 8 + (c - b'0')) % 2 ^ 64) text in
    if c == 0 || c == b' '
    then if saw then (true, value) else later
    else if within b'0' b'7' c
    then next
    else (false, value)

unfoldable pub parse_octal : Bytes → Bool × ℕ
unfolding octal_loop
parse_octal text = octal_loop false 0 text
