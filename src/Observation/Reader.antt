-- ===== src/Observation/Reader.antt =====
-- `read_observation`: the document is read in blocks, up to a byte limit, and then parsed.
use mcp_observatory.Prelude.{
  ℕ, ltb, if◌then◌else◌, Bytes, length, Outcome, ok, err, ◌>>=◌, ◌>>◌, require, ◌-◌, min, not, List,
  [], ◌∷◌, ◌++◌,
}
use mcp_observatory.Inventory.{Stream}
use mcp_observatory.Observation.Model.{ObservationLimits, Observation}
use mcp_observatory.Observation.Parser.{parse_observation}

unfoldable pub append_observation_blocks : ℕ → Bytes → List Bytes → Outcome Bytes
append_observation_blocks max_bytes text [] = ok text
append_observation_blocks max_bytes text (block ∷ blocks) =
    let more = append_observation_blocks max_bytes (text ++ block) blocks in
    if ltb (max_bytes - min max_bytes (length text)) (length block)
    then err "observation exceeds configured byte limit"
    else more

unfoldable pub read_observation : ObservationLimits → Stream → Outcome Observation
read_observation limits input = do
  text ← append_observation_blocks limits.max_bytes [] input.blocks
  require (not input.bad) "I/O failure while reading observation"
  parse_observation limits text
