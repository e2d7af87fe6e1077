-- ===== src/Inventory/Reading.antt =====
-- `read_inventory` on every stream: the byte limit, and the document behind it.
use mcp_observatory.Prelude.{
  ℕ, ltb, leb, if◌then◌else◌, Bool-cases, Bytes, length, length-append, joined, ok, err, Ensures,
  rejected, Ensures-if, ◌≤◌, String, ◌≡◌, inl, inr, List, [], ◌∷◌, ◌++◌, append_assoc, append-nil,
  arith,
}
use mcp_observatory.Inventory.Model.{InventoryLimits}
use mcp_observatory.Inventory.Parser.{parse_inventory}
use mcp_observatory.Inventory.Reader.{Stream, append_blocks, read_inventory}
use mcp_observatory.Inventory.WellFormed.{IsInventoryOf, parse_inventory-Ensures}

abbrev pub too_long : String
too_long = "inventory exceeds configured byte limit"

append_blocks_exact :
    (max_bytes : ℕ) (text : Bytes) (blocks : List Bytes)
    → length text ≤ max_bytes
    → append_blocks max_bytes text blocks ≡ (
        if leb (length (text ++ joined blocks)) max_bytes
        then ok (text ++ joined blocks)
        else err too_long)
unfolding append_blocks
append_blocks_exact max_bytes text [] h = rw append-nil (ground arith)
append_blocks_exact max_bytes text (block ∷ blocks) h =
    elim (Bool-cases (ltb max_bytes (length (text ++ block)))) [
      | inl over ↦
          rw (← append_assoc text block (joined blocks)) (
            ground (arith, length-append text block, length-append (text ++ block) (joined blocks)))
      | inr fits ↦ rw (← append_assoc text block (joined blocks)) (
          ground
            (arith, length-append text block, append_blocks_exact max_bytes (text ++ block) blocks))
    ]

-- `read_inventory` reads the blocks of the stream as one text, whatever the cuts between them: it
-- fails with the message of the byte limit exactly when that text is longer, then fails with the
-- I/O message if the stream went bad, and otherwise parses that text.
pub read_inventory_exact :
    (limits : InventoryLimits) (input : Stream)
    → read_inventory limits input ≡ (
        if leb (length (joined input.blocks)) limits.max_bytes
        then (if input.bad
            then err "I/O failure while reading inventory"
            else parse_inventory limits (joined input.blocks))
        else err too_long)
unfolding read_inventory
read_inventory_exact limits input =
    rw (append_blocks_exact limits.max_bytes [] input.blocks (omega arith)) (ground arith)

-- On every stream `read_inventory` ends, and an inventory that it returns has version 1, a
-- nonempty executable and at most `max_tools` tools, strictly sorted by name; each tool has a
-- nonempty name of at most `max_tool_name_bytes` bytes and, as its definition, one piece of the
-- document.
pub read_inventory-IsInventoryOf :
    (limits : InventoryLimits) (input : Stream)
    → Ensures (IsInventoryOf limits (joined input.blocks)) (read_inventory limits input)
read_inventory-IsInventoryOf limits input = rw read_inventory_exact (
    Ensures-if (leb (length (joined input.blocks)) limits.max_bytes)
      (Ensures-if input.bad rejected (parse_inventory-Ensures limits (joined input.blocks)))
      rejected)
