-- ===== src/Observation/Writer.antt =====
-- `append_observation_jsonl`: one line for each observation.
use mcp_observatory.Prelude.{
  ℕ, ltb, if◌then◌else◌, Bytes, ascii, Outcome, ok, err, zero, suc, ◌+◌, ◌/◌, ◌%◌, Bool, [], ◌∷◌,
  ◌++◌,
}
use mcp_observatory.Observation.Model.{Observation}

-- `output << n`, for the digits of a number below `10 ^ fuel`
unfoldable pub digits_of : ℕ → ℕ → Bytes
digits_of zero n = []
digits_of (suc f) n =
    let front = digits_of f (n / 10) in
    if ltb n 10 then (48 + n) ∷ [] else front ++ (48 + n % 10) ∷ []

-- a `std::uint32_t` has at most ten digits
abbrev pub uint32_text : ℕ → Bytes
uint32_text = digits_of 10

-- `"key":"value",`, with what stands before and behind
abbrev pub quoted_member : Bytes → Bytes → Bytes → Bytes
quoted_member opening value rest = opening ++ (value ++ rest)

-- The line that is appended, its line feed included.
unfoldable pub observation_line : Observation → Bytes
observation_line o =
    ascii "{\"observation_version\":"
    ++ (uint32_text o.version
        ++ quoted_member (ascii ",\"observed_at\":\"") o.observed_at (
            quoted_member (ascii "\",\"target_id\":\"") o.target_id (
              quoted_member (ascii "\",\"source_type\":\"") o.source_type (
                quoted_member (ascii "\",\"sensor\":{\"name\":\"") o.sensor_name (
                  quoted_member (ascii "\",\"version\":\"") o.sensor_version (
                    quoted_member (ascii "\"},\"configuration_profile\":\"") o.configuration_profile
                      (quoted_member (ascii "\",\"inventory\":") o.inventory_json
                        (ascii "}\n"))))))))

-- The bytes that the stream holds afterwards, when the stream accepts them; `accepts` is what
-- `!output` reports afterwards.
unfoldable pub append_observation_jsonl : Bool → Bytes → Observation → Outcome Bytes
append_observation_jsonl accepts output o =
    if accepts then ok (output ++ observation_line o) else err "failed to append observation"
