-- ===== src/Tests/Inventories.antt =====
-- Inventory documents: runs of the reader and of the comparison.
use mcp_observatory.Prelude.{
  leb, if◌then◌else◌, ascii, length, joined, equal, before, Outcome, ok, err, Ensures, String, ◌≡◌,
  refl, ◌↔◌, true, false, not, [], ◌∷◌,
}
use mcp_observatory.Scan.{
  parse_uint32, plain_string, skip_json, first_member, members, object_body, next_element, expect,
  skip_space,
}
use mcp_observatory.Scan.Tail.{between}
use mcp_observatory.Scan.Fuel.{Shortens, skip_json-Shortens}
use mcp_observatory.Inventory.{
  Inventory, InventoryTool, Stream, default_limits, read_inventory, append_blocks, parse_inventory,
  dialect, unknown_member, server_member, parse_server, tool_member, parse_tool, parse_tool_list,
  first_tool, parse_tools, inventory_member, check_document, compare_inventories, identical,
  is_sorted, has_neighbours,
}
use mcp_observatory.Inventory.WellFormed.{IsInventoryOf}
use mcp_observatory.Inventory.Reading.{read_inventory_exact, read_inventory-IsInventoryOf, too_long}
use mcp_observatory.Inventory.Changes.{
  compare_inventories_exact, identical-compare_inventories, additions, modifications,
}

abbrev stream_of : String → Stream
stream_of s = record { blocks = ascii s ∷ []; bad = false }

read : String → Outcome Inventory
unfolding read_inventory append_blocks parse_inventory unknown_member server_member parse_server
    tool_member parse_tool parse_tool_list first_tool parse_tools inventory_member check_document
    is_sorted has_neighbours parse_uint32 plain_string skip_json first_member members object_body
    next_element expect skip_space between ascii equal before
read s = read_inventory default_limits (stream_of s)

abbrev old_text : String
old_text =
    "{\"inventory_version\": 1, \"server\": {\"downstream_executable\": \"fs\"}, \"extra\": [1, {\"a\": null}], \"tools\": [{\"name\": \"list\"}, {\"name\": \"read\", \"x\": 1}]}"

abbrev tool : String → String → InventoryTool
unfolding ascii
tool name definition = record { name = ascii name; canonical_definition = ascii definition }

abbrev old_inventory : Inventory
unfolding ascii
old_inventory = record {
  version = 1;
  downstream_executable = ascii "fs";
  tools = tool "list" "{\"name\": \"list\"}" ∷ tool "read" "{\"name\": \"read\", \"x\": 1}" ∷ [];
}

abbrev new_inventory : Inventory
unfolding ascii
new_inventory = record {
  version = 1;
  downstream_executable = ascii "fs";
  tools = tool "read" "{\"name\": \"read\"}" ∷ tool "write" "{\"name\": \"write\"}" ∷ [];
}

read_old : read old_text ≡ ok old_inventory
unfolding read ascii
read_old = refl

read_unsorted :
    read
      "{\"inventory_version\":1,\"server\":{\"downstream_executable\":\"fs\"},\"tools\":[{\"name\":\"b\"},{\"name\":\"a\"}]}"
    ≡ err "tools must be sorted by name"
unfolding read
read_unsorted = refl

read_truncated :
    read "{\"inventory_version\": 1, \"tools\": [" ≡ err "tool definition must be an object"
unfolding read
read_truncated = refl

compare_old_new : compare_inventories old_inventory new_inventory ≡ record {
  executable_changed = false;
  added = ascii "write" ∷ [];
  removed = ascii "list" ∷ [];
  modified = record { name = ascii "read" } ∷ [];
}
unfolding compare_inventories ascii equal before
compare_old_new = refl

skip_json-Shortens_example :
    Shortens (ascii "[1, {}] rest") (skip_json dialect 64 0 (ascii "[1, {}] rest"))
skip_json-Shortens_example = skip_json-Shortens dialect 64 0 (ascii "[1, {}] rest")

read_inventory_exact_example : read_inventory default_limits (stream_of old_text) ≡ (
    if leb (length (joined (stream_of old_text).blocks)) default_limits.max_bytes
    then (if false
        then err "I/O failure while reading inventory"
        else parse_inventory default_limits (joined (stream_of old_text).blocks))
    else err too_long)
read_inventory_exact_example = read_inventory_exact default_limits (stream_of old_text)

read_inventory-IsInventoryOf_example :
    Ensures
      (IsInventoryOf default_limits (joined (stream_of old_text).blocks))
      (read_inventory default_limits (stream_of old_text))
read_inventory-IsInventoryOf_example =
    read_inventory-IsInventoryOf default_limits (stream_of old_text)

compare_inventories_exact_example : compare_inventories old_inventory new_inventory ≡ record {
  executable_changed = not (equal (ascii "fs") (ascii "fs"));
  added = additions old_inventory.tools new_inventory.tools;
  removed = additions new_inventory.tools old_inventory.tools;
  modified = modifications old_inventory.tools new_inventory.tools;
}
unfolding ascii before
compare_inventories_exact_example =
    compare_inventories_exact old_inventory new_inventory ((refl, tt), (tt, tt))
      ((refl, tt), (tt, tt))

identical-compare_inventories_example :
    (identical (compare_inventories old_inventory new_inventory) ≡ true) ↔ (
      (old_inventory.downstream_executable ≡ new_inventory.downstream_executable)
      × (old_inventory.tools ≡ new_inventory.tools))
identical-compare_inventories_example = identical-compare_inventories old_inventory new_inventory
