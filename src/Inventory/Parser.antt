-- ===== src/Inventory/Parser.antt =====
-- `InventoryParser`: an inventory document, read member by member.
use mcp_observatory.Prelude.{
  ℕ, ltb, leb, ◌==◌, if◌then◌else◌, Bytes, ascii, length, null, equal, before, Outcome, ◌>>=◌, ◌>>◌,
  require, ok, out_of_fuel, zero, suc, Bool, true, false, not, ◌&&◌, ◌||◌, List, [], ◌∷◌, ◌++◌,
}
use mcp_observatory.Scan.{
  Dialect, skip_space, expect, plain_string, parse_uint32, skip_json, fuel_for, next_element,
  object_body,
}
use mcp_observatory.Scan.Tail.{between}
use mcp_observatory.Inventory.Model.{InventoryLimits, InventoryTool, Inventory}

abbrev pub dialect : Dialect
dialect = record {
  newline_is_space = true;
  escaped_message = "escaped or control characters are not supported in identity strings";
  nesting_message = "JSON value exceeds configured nesting limit";
  escape_message = "unterminated JSON escape";
  colon_message = "expected ':' in object";
}

-- a member that the parser does not know is skipped at this depth
unfoldable pub unknown_member {ℓ} :
    {S : Type ℓ} → InventoryLimits → ℕ → S → Bytes → Outcome (S × Bytes)
unknown_member limits depth state s = do
  rest ← skip_json dialect limits.max_nesting_depth depth s
  ok (state, rest)

-- The locals of a record parser: whether the required member came, and its value.
pub record Slot : Type 0 where
  pub have : Bool
  pub value : Bytes

abbrev pub empty_slot : Slot
empty_slot = record { have = false; value = [] }

unfoldable pub server_member : InventoryLimits → Bytes → Slot → Bytes → Outcome (Slot × Bytes)
server_member limits key slot s =
    if equal key (ascii "downstream_executable")
    then (do
      require (not slot.have) "duplicate downstream_executable"
      (executable, rest) ← plain_string dialect s
      require (not (null executable)) "downstream_executable must not be empty"
      ok (record { have = true; value = executable }, rest))
    else unknown_member limits 1 slot s

unfoldable pub parse_server : InventoryLimits → Bytes → Outcome (Bytes × Bytes)
parse_server limits s = do
  body ← expect b'{' "server must be an object" s
  (slot, rest) ←
      object_body dialect "server is missing downstream_executable" "expected ':' in server object"
        "expected ',' or '}' in server object" (server_member limits) empty_slot body
  require slot.have "server is missing downstream_executable"
  ok (slot.value, rest)

unfoldable pub tool_member : InventoryLimits → Bytes → Slot → Bytes → Outcome (Slot × Bytes)
tool_member limits key slot s =
    if equal key (ascii "name")
    then (do
      require (not slot.have) "duplicate tool name member"
      (name, rest) ← plain_string dialect s
      require (not (null name)) "tool name must not be empty"
      require (leb (length name) limits.max_tool_name_bytes) "tool name exceeds configured limit"
      ok (record { have = true; value = name }, rest))
    else unknown_member limits 2 slot s

-- The definition of a tool is the text of its object, as it stands in the document.
unfoldable pub parse_tool : InventoryLimits → Bytes → Outcome (InventoryTool × Bytes)
parse_tool limits s = do
  body ← expect b'{' "tool definition must be an object" s
  (slot, rest) ←
      object_body dialect "tool definition is missing name" "expected ':' in tool definition"
        "expected ',' or '}' in tool definition" (tool_member limits) empty_slot body
  require slot.have "tool definition is missing name"
  ok (record { name = slot.value; canonical_definition = between s rest }, rest)

-- the loop of `parse_tools`
unfoldable pub parse_tool_list :
    ℕ → InventoryLimits → List InventoryTool → Bytes → Outcome (List InventoryTool × Bytes)
parse_tool_list zero limits tools s = out_of_fuel
parse_tool_list (suc f) limits tools s = do
  require (ltb (length tools) limits.max_tools) "tool count exceeds configured limit"
  (tool, rest) ← parse_tool limits s
  next_element dialect b']' "expected ',' or ']' in tools array" (parse_tool_list f limits)
      (tools ++ tool ∷ []) (skip_space dialect rest)

-- behind the opening bracket
unfoldable pub first_tool :
    (Bytes → Outcome (List InventoryTool × Bytes)) → Bytes → Outcome (List InventoryTool × Bytes)
first_tool loop [] = loop []
first_tool loop (c ∷ s) = if c == b']' then ok ([], s) else loop (c ∷ s)

unfoldable pub parse_tools : InventoryLimits → Bytes → Outcome (List InventoryTool × Bytes)
parse_tools limits s = do
  body ← expect b'[' "tools must be an array" s
  first_tool (parse_tool_list (fuel_for body) limits []) (skip_space dialect body)

-- the locals of `parse`, and the inventory that it fills
pub record Document : Type 0 where
  pub have_version : Bool
  pub have_server : Bool
  pub have_tools : Bool
  pub inventory : Inventory

abbrev pub empty_inventory : Inventory
empty_inventory = record { version = 0; downstream_executable = []; tools = [] }

abbrev pub empty_document : Document
empty_document = record {
  have_version = false;
  have_server = false;
  have_tools = false;
  inventory = empty_inventory;
}

unfoldable pub inventory_member :
    InventoryLimits → Bytes → Document → Bytes → Outcome (Document × Bytes)
inventory_member limits key doc s =
    if equal key (ascii "inventory_version")
    then (do
      require (not doc.have_version) "duplicate inventory_version"
      (version, rest) ←
          parse_uint32 "inventory_version must be an unsigned integer"
            "inventory_version is out of range" s
      ok (
        record doc { have_version = true; inventory = record doc.inventory { version = version } },
        rest,
      ))
    else if equal key (ascii "server")
    then (do
      require (not doc.have_server) "duplicate server"
      (executable, rest) ← parse_server limits s
      ok (
        record doc {
          have_server = true;
          inventory = record doc.inventory { downstream_executable = executable };
        },
        rest,
      ))
    else if equal key (ascii "tools")
    then (do
      require (not doc.have_tools) "duplicate tools"
      (tools, rest) ← parse_tools limits s
      ok (
        record doc { have_tools = true; inventory = record doc.inventory { tools = tools } },
        rest,
      ))
    else unknown_member limits 0 doc s

-- `std::is_sorted` by name
unfoldable pub is_sorted : List InventoryTool → Bool
is_sorted [] = true
is_sorted (t ∷ []) = true
is_sorted (t ∷ u ∷ ts) = not (before u.name t.name) && is_sorted (u ∷ ts)

-- the loop that looks for two neighbours of one name
unfoldable pub has_neighbours : List InventoryTool → Bool
has_neighbours [] = false
has_neighbours (t ∷ []) = false
has_neighbours (t ∷ u ∷ ts) = equal t.name u.name || has_neighbours (u ∷ ts)

-- what `parse` checks once the object has ended
unfoldable pub check_document : Document → Bytes → Outcome Inventory
check_document doc rest = do
  require (null rest) "unexpected data after inventory"
  require (doc.have_version && doc.have_server && doc.have_tools)
      "inventory is missing required fields"
  require (doc.inventory.version == 1) "unsupported inventory_version"
  require (is_sorted doc.inventory.tools) "tools must be sorted by name"
  require (not (has_neighbours doc.inventory.tools)) "duplicate tool name"
  ok doc.inventory

unfoldable pub parse_inventory : InventoryLimits → Bytes → Outcome Inventory
parse_inventory limits text = do
  body ← expect b'{' "inventory must be a JSON object" (skip_space dialect text)
  (doc, rest) ←
      object_body dialect "inventory is missing required fields"
        "expected ':' after inventory member" "expected ',' or '}' in inventory"
        (inventory_member limits) empty_document body
  check_document doc (skip_space dialect rest)
