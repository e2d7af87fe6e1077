-- ===== src/Tests/Json.antt =====
-- The strict parser and the canonical form at a small document.
use mcp_observatory.Prelude.{
  Bytes, ascii, before, ok, err, Ensures, ◌≤◌, ◌≡◌, refl, true, [], ◌∷◌, arith, equal, starts_with,
  ℕ, zero, suc,
}
use mcp_observatory.Registry.Json.{
  Json, boolean, text, number, array, object, nil, cons, end, field, parse_json, canonical_json,
  valid_utf8, parse_number, keep_field, emplace, push_back, first_byte, is_overlong, next_byte,
  utf8_from, utf8_bytes, hex_digit, hex_digits, hex4, escaped_character, unicode_escape,
  simple_escape, escape, string_loop, parse_string, number_sign, number_integer, digits_behind,
  number_fraction, exponent_sign, number_exponent, add_field, text_value, number_value, parse_word,
  open_container, next_entry, array_value, object_value, parse_token, parse_value, parse_document,
}
use mcp_observatory.Scan.{skip_space, is_space, expect, span_digits}
use mcp_observatory.Registry.Json.Normal.{IsNormal, nesting}
use mcp_observatory.Registry.Json.Canonical.{parse_json-canonical_json}
use mcp_observatory.Registry.Json.Deep.{parse_json-too_deep}
use mcp_observatory.Registry.Json.Total.{parse_json-IsNormal, parse_json-stable}

abbrev document : Bytes
document = ascii "{ \"b\" : [ 1.5e3, true ], \"a\" : \"x\\u000ay\" }"

abbrev document_value : Json
document_value = object (
    field (ascii "a") (text (b'x' ∷ 10 ∷ b'y' ∷ []))
      (field (ascii "b") (array (cons (number (ascii "1.5e3")) (cons (boolean true) nil))) end))

abbrev document_text : Bytes
document_text = ascii "{\"a\":\"x\\ny\",\"b\":[1.5e3,true]}"

document_read : parse_json document ≡ ok document_value
unfolding parse_json ascii valid_utf8 utf8_from next_byte first_byte is_overlong parse_document
    parse_value parse_token parse_word skip_space is_space parse_string string_loop escape
    simple_escape unicode_escape escaped_character hex4 hex_digits hex_digit utf8_bytes expect
    starts_with parse_number number_sign number_integer number_fraction number_exponent
    exponent_sign digits_behind span_digits text_value number_value array_value object_value
    open_container next_entry add_field emplace keep_field push_back before equal
document_read = refl

document_written : canonical_json document_value ≡ document_text
unfolding canonical_json ascii
document_written = refl

document-IsNormal : IsNormal document_value
unfolding IsNormal valid_utf8 ascii before parse_number number_sign number_integer number_fraction
    number_exponent exponent_sign digits_behind span_digits
document-IsNormal = (refl, refl, refl, (refl, ((refl, (tt, tt))), tt, tt))

document_shallow : nesting document_value ≤ 64
unfolding nesting
document_shallow = omega arith

duplicate_member : parse_json (ascii "{\"a\":1,\"a\":1}") ≡ err "duplicate JSON object member"
unfolding parse_json ascii valid_utf8 utf8_from next_byte first_byte is_overlong parse_document
    parse_value parse_token parse_word skip_space is_space parse_string string_loop escape
    simple_escape unicode_escape escaped_character hex4 hex_digits hex_digit utf8_bytes expect
    starts_with parse_number number_sign number_integer number_fraction number_exponent
    exponent_sign digits_behind span_digits text_value number_value array_value object_value
    open_container next_entry add_field emplace keep_field push_back before equal
duplicate_member = refl

parse_json-canonical_json_example : parse_json (canonical_json document_value) ≡ ok document_value
parse_json-canonical_json_example =
    parse_json-canonical_json document_value document-IsNormal document_shallow

parse_json-IsNormal_example : Ensures (λ v. IsNormal v × (nesting v ≤ 64)) (parse_json document)
parse_json-IsNormal_example = parse_json-IsNormal document

parse_json-stable_example : parse_json (canonical_json document_value) ≡ ok document_value
parse_json-stable_example = parse_json-stable document document_value document_read

-- arrays in arrays
abbrev nested : ℕ → Json
nested zero = array nil
nested (suc n) = array (cons (nested n) nil)

nested-IsNormal : (n : ℕ) → IsNormal (nested n)
unfolding IsNormal
nested-IsNormal zero = tt
nested-IsNormal (suc n) = (nested-IsNormal n, tt)

nesting-nested : (n : ℕ) → nesting (nested n) ≡ n
unfolding nesting
nesting-nested zero = refl
nesting-nested (suc n) = omega (arith, nesting-nested n)

parse_json-too_deep_example :
    parse_json (canonical_json (nested 65)) ≡ err "JSON nesting limit exceeded"
parse_json-too_deep_example =
    parse_json-too_deep (nested 65) (nested-IsNormal 65) (omega (arith, nesting-nested 65))
