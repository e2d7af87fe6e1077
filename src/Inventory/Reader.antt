-- ===== src/Inventory/Reader.antt =====
-- `read_inventory`: the document is read in blocks, up to a byte limit, and then parsed.
use mcp_observatory.Prelude.{
  ℕ, ltb, if◌then◌else◌, Bytes, length, Outcome, ◌>>=◌, ◌>>◌, require, ok, err, ◌-◌, min, Bool, not,
  List, [], ◌∷◌, ◌++◌,
}
use mcp_observatory.Inventory.Model.{InventoryLimits, Inventory}
use mcp_observatory.Inventory.Parser.{parse_inventory}

-- What `input.read` delivers, call by call, and whether the stream went bad.
pub record Stream : Type 0 where
  pub blocks : List Bytes
  pub bad : Bool

unfoldable pub append_blocks : ℕ → Bytes → List Bytes → Outcome Bytes
append_blocks max_bytes text [] = ok text
append_blocks max_bytes text (block ∷ blocks) =
    let more = append_blocks max_bytes (text ++ block) blocks in
    if ltb (max_bytes - min max_bytes (length block)) (length text)
    then err "inventory exceeds configured byte limit"
    else if ltb max_bytes (length (text ++ block))
    then err "inventory exceeds configured byte limit"
    else more

unfoldable pub read_inventory : InventoryLimits → Stream → Outcome Inventory
unfolding append_blocks parse_inventory
read_inventory limits input = do
  text ← append_blocks limits.max_bytes [] input.blocks
  require (not input.bad) "I/O failure while reading inventory"
  parse_inventory limits text
