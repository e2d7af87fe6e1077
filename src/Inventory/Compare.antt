-- ===== src/Inventory/Compare.antt =====
-- `compare_inventories`: one walk over both sorted tool lists.
use mcp_observatory.Prelude.{Bytes, false, not, List, [], ◌∷◌, ◌++◌, if◌then◌else◌, equal, before}
use mcp_observatory.Inventory.Model.{InventoryTool, Inventory, InventoryDiff}

abbrev pub no_changes : InventoryDiff
no_changes = record { executable_changed = false; added = []; removed = []; modified = [] }

-- `diff.added.push_back(name)`, and so on
abbrev pub push_added : InventoryDiff → Bytes → InventoryDiff
push_added d name = record d { added = d.added ++ name ∷ [] }

abbrev pub push_removed : InventoryDiff → Bytes → InventoryDiff
push_removed d name = record d { removed = d.removed ++ name ∷ [] }

abbrev pub push_modified : InventoryDiff → Bytes → InventoryDiff
push_modified d name = record d { modified = d.modified ++ record { name = name } ∷ [] }

-- the branch for two tools of one name
abbrev pub push_if_modified : InventoryDiff → InventoryTool → InventoryTool → InventoryDiff
push_if_modified d old_tool new_tool =
    if equal old_tool.canonical_definition new_tool.canonical_definition
    then d
    else push_modified d old_tool.name

-- The loop; the arguments are the tools from `old_index` and from `new_index` on.
unfoldable pub walk : List InventoryTool → List InventoryTool → InventoryDiff → InventoryDiff
walk [] [] d = d
walk [] (n ∷ ns) d = walk [] ns (push_added d n.name)
walk (o ∷ os) [] d = walk os [] (push_removed d o.name)
walk (o ∷ os) (n ∷ ns) d =
    let gone = walk os (n ∷ ns) (push_removed d o.name) in
    let fresh = walk (o ∷ os) ns (push_added d n.name) in
    let both = walk os ns (push_if_modified d o n) in
    if before o.name n.name then gone else if before n.name o.name then fresh else both

unfoldable pub compare_inventories : Inventory → Inventory → InventoryDiff
unfolding walk
compare_inventories old new = walk old.tools new.tools (record no_changes {
  executable_changed = not (equal old.downstream_executable new.downstream_executable);
})
