-- ===== src/Inventory/WellFormed.antt =====
-- What an accepted inventory document satisfies.
use mcp_observatory.Prelude.{
  ℕ, leb, leb→le, Bytes, ascii, length, null, equal, Ensures-bind, Ensures-if, Ensures-require,
  holds, ◌≤◌, ◌≡◌, sym, subst, true, false, not, List, [], ◌∷◌, ◌++◌, arith, ltb, ◌==◌, ltb→lt,
  ==→eq, length-append, before, equal_iff, before_total, Outcome, Ensures, Ensures-weaken, zero,
  suc, ◌<◌, ◌&&◌, All, All-concat, not-true→false,
}
use mcp_observatory.Scan.{skip_space, fuel_for}
use mcp_observatory.Scan.Tail.{
  IsTail, IsRest-IsTail, IsRest-left, IsRest-trans, length-IsTail, between-append, here, behind,
  IsTail-trans, length-IsRest,
}
use mcp_observatory.Scan.Fuel.{
  skip_space-IsTail, expect-Shortens, plain_string-Advances, skip_json-Shortens,
}
use mcp_observatory.Scan.Rounds.{
  Keeps, Moves, next_element-Moves, parse_uint32-Keeps, object_body-Moves,
}
use mcp_observatory.Inventory.Changes.{IsAscending, Below-trans}
use mcp_observatory.Inventory.Model.{InventoryLimits, InventoryTool, Inventory}
use mcp_observatory.Inventory.Parser.{
  dialect, unknown_member, Slot, empty_slot, server_member, parse_server, tool_member, parse_tool,
  parse_tool_list, first_tool, parse_tools, Document, empty_document, inventory_member, is_sorted,
  has_neighbours, check_document, parse_inventory,
}

-- `part` stands somewhere in `whole`, as one piece.
pub record Occurs (part whole : Bytes) : Type 0 where
  pub after : Bytes
  pub stands : IsTail (part ++ after) whole

pub record IsValidTool (limits : InventoryLimits) (text : Bytes) (t : InventoryTool) : Type 0 where
  pub name_given : null t.name ≡ false
  pub name_bound : length t.name ≤ limits.max_tool_name_bytes
  pub definition_occurs : Occurs t.canonical_definition text

unknown_member-Keeps {ℓ} :
    {S : Type ℓ} (P : S → Type ℓ) (limits : InventoryLimits) (depth : ℕ) (x : S) (t : Bytes)
    → P x
    → Keeps P t (unknown_member limits depth x t)
unfolding unknown_member
unknown_member-Keeps P limits depth x t h =
    Ensures-bind (skip_json-Shortens dialect limits.max_nesting_depth depth t)
      λ r p. holds (h, IsRest-IsTail p)

abbrev HasName : Slot → Type 0
HasName slot = slot.have ≡ true → null slot.value ≡ false

server_member-Keeps :
    (limits : InventoryLimits) (key : Bytes) (slot : Slot) (t : Bytes)
    → HasName slot
    → Keeps HasName t (server_member limits key slot t)
unfolding server_member
server_member-Keeps limits key slot t h =
    Ensures-if (equal key (ascii "downstream_executable"))
      (Ensures-require (not slot.have) _ λ _.
        Ensures-bind (plain_string-Advances dialect t) λ (v, r) p.
          Ensures-require (not (null v)) _
            λ e. holds (λ _. not-true→false (null v) e, IsRest-IsTail p))
      (unknown_member-Keeps HasName limits 1 slot t h)

pub parse_server-Moves :
    (limits : InventoryLimits) (s : Bytes) → Moves (λ v. null v ≡ false) s (parse_server limits s)
unfolding parse_server
parse_server-Moves limits s = Ensures-bind (expect-Shortens b'{' _ s) λ body p.
    Ensures-bind
      (object_body-Moves HasName dialect _ _ _ (server_member limits) empty_slot body
        (λ key x t h _. server_member-Keeps limits key x t h) (λ e. cc))
      λ (slot, r) (h, q). Ensures-require slot.have _ λ e. holds (h e, IsRest-trans q p)

abbrev HasBoundedName : InventoryLimits → Slot → Type 0
HasBoundedName limits slot =
    slot.have ≡ true → (null slot.value ≡ false) × (length slot.value ≤ limits.max_tool_name_bytes)

tool_member-Keeps :
    (limits : InventoryLimits) (key : Bytes) (slot : Slot) (t : Bytes)
    → HasBoundedName limits slot
    → Keeps (HasBoundedName limits) t (tool_member limits key slot t)
unfolding tool_member
tool_member-Keeps limits key slot t h =
    Ensures-if (equal key (ascii "name"))
      (Ensures-require (not slot.have) _ λ _.
        Ensures-bind (plain_string-Advances dialect t) λ (v, r) p.
          Ensures-require (not (null v)) _ λ e.
            Ensures-require (leb (length v) limits.max_tool_name_bytes) _
              λ l. holds (λ _. (not-true→false (null v) e, leb→le _ _ l), IsRest-IsTail p))
      (unknown_member-Keeps (HasBoundedName limits) limits 2 slot t h)

-- A tool that was read from the end `s` of `text`.
pub parse_tool-Moves :
    (limits : InventoryLimits) (text s : Bytes)
    → IsTail s text
    → Moves (IsValidTool limits text) s (parse_tool limits s)
unfolding parse_tool
parse_tool-Moves limits text s within_text = Ensures-bind (expect-Shortens b'{' _ s) λ body p.
    Ensures-bind
      (object_body-Moves (HasBoundedName limits) dialect _ _ _ (tool_member limits) empty_slot body
        (λ key x t h _. tool_member-Keeps limits key x t h) (λ e. cc))
      λ (slot, r) (h, q).
        let rest = IsRest-trans q p in
        Ensures-require slot.have _ λ e. holds (
          record {
            name_given = (h e).0;
            name_bound = (h e).1;
            definition_occurs = record {
              after = r;
              stands =
                  subst (λ u. IsTail u text) (sym (between-append (IsRest-IsTail rest)))
                    within_text;
            };
          },
          rest,
        )

-- the tools that the loop has collected
record AreValidTools (limits : InventoryLimits) (text : Bytes) (ts : List InventoryTool)
    : Type 0 where
  each : All (IsValidTool limits text) ts
  count : length ts ≤ limits.max_tools

parse_tool_list-Moves :
    (f : ℕ) (limits : InventoryLimits) (text : Bytes) (tools : List InventoryTool) (s : Bytes)
    → AreValidTools limits text tools
    → IsTail s text
    → length s < f
    → Moves (AreValidTools limits text) s (parse_tool_list f limits tools s)
unfolding parse_tool_list
parse_tool_list-Moves zero limits text tools s h w l = absurd (omega arith)
parse_tool_list-Moves (suc f) limits text tools s h w l =
    Ensures-require (ltb (length tools) limits.max_tools) _ λ room.
      Ensures-bind (parse_tool-Moves limits text s w) λ (tool, r) (v, p).
        next_element-Moves (AreValidTools limits text) dialect b']' _ (parse_tool_list f limits)
          (tools ++ tool ∷ []) (skip_space dialect r)
          (record {
            each = All-concat (IsValidTool limits text) tools tool h.each v;
            count = omega (arith, ltb→lt _ _ room, length-append tools (tool ∷ []));
          })
          (IsTail-trans (skip_space-IsTail dialect r) (IsRest-IsTail p))
          (λ u q.
            parse_tool_list-Moves f limits text _ u
              (record {
                each = All-concat (IsValidTool limits text) tools tool h.each v;
                count = omega (arith, ltb→lt _ _ room, length-append tools (tool ∷ []));
              })
              (IsTail-trans (IsRest-IsTail q) w) (omega (arith, length-IsRest q)))

first_tool-Moves :
    (limits : InventoryLimits) (text : Bytes) (loop : Bytes → Outcome (List InventoryTool × Bytes))
    (s : Bytes)
    → Moves (AreValidTools limits text) s (loop s)
    → Moves (AreValidTools limits text) s (first_tool loop s)
unfolding first_tool
first_tool-Moves limits text loop [] h = h
first_tool-Moves limits text loop (c ∷ s) h =
    Ensures-if (c == b']') (holds (record { each = tt; count = omega arith }, behind here)) h

parse_tools-Moves :
    (limits : InventoryLimits) (text s : Bytes)
    → IsTail s text
    → Moves (AreValidTools limits text) s (parse_tools limits s)
unfolding parse_tools
parse_tools-Moves limits text s w = Ensures-bind (expect-Shortens b'[' _ s) λ body p.
    let t = skip_space-IsTail dialect body in
    Ensures-weaken
      (first_tool-Moves limits text _ (skip_space dialect body) (
        parse_tool_list-Moves (fuel_for body) limits text [] (skip_space dialect body)
          (record { each = tt; count = omega arith })
          (IsTail-trans t (IsTail-trans (IsRest-IsTail p) w)) (omega (arith, length-IsTail t))))
      λ _ x. (x.0, IsRest-trans x.1 (IsRest-left t p))

-- what the fields hold once their member came
record IsFilled (limits : InventoryLimits) (text : Bytes) (doc : Document) : Type 0 where
  executable : doc.have_server ≡ true → null doc.inventory.downstream_executable ≡ false
  tools : AreValidTools limits text doc.inventory.tools

inventory_member-Keeps :
    (limits : InventoryLimits) (text key : Bytes) (doc : Document) (t : Bytes)
    → IsFilled limits text doc
    → IsTail t text
    → Keeps (IsFilled limits text) t (inventory_member limits key doc t)
unfolding inventory_member
inventory_member-Keeps limits text key doc t h w =
    Ensures-if (equal key (ascii "inventory_version"))
      (Ensures-require (not doc.have_version) _ λ _.
        Ensures-bind (parse_uint32-Keeps _ _ t)
          λ (n, r) (_, p). holds (record { executable = h.executable; tools = h.tools }, p))
      (Ensures-if (equal key (ascii "server"))
        (Ensures-require (not doc.have_server) _ λ _.
          Ensures-bind (parse_server-Moves limits t) λ (v, r) (e, p).
            holds (record { executable = λ _. e; tools = h.tools }, IsRest-IsTail p))
        (Ensures-if (equal key (ascii "tools"))
          (Ensures-require (not doc.have_tools) _ λ _.
            Ensures-bind (parse_tools-Moves limits text t w) λ (ts, r) (v, p).
              holds (record { executable = h.executable; tools = v }, IsRest-IsTail p))
          (unknown_member-Keeps (IsFilled limits text) limits 0 doc t h)))

-- neighbours in order and no two alike
ascending :
    (ts : List InventoryTool) → is_sorted ts ≡ true → has_neighbours ts ≡ false → IsAscending ts
unfolding is_sorted has_neighbours
ascending [] p q = tt
ascending (t ∷ []) p q = (tt, tt)
ascending (t ∷ u ∷ ts) p q =
    let rest : IsAscending (u ∷ ts) = ascending (u ∷ ts) (ground arith) (ground arith) in
    let first : before t.name u.name ≡ true =
      ground (arith, before_total t.name u.name, equal_iff t.name u.name) in
    ((first, Below-trans t.name u.name ts first rest.0), rest)

-- An inventory that `read_inventory` may return for a document.
pub record IsInventoryOf (limits : InventoryLimits) (text : Bytes) (inv : Inventory) : Type 0 where
  pub version : inv.version ≡ 1
  pub executable : null inv.downstream_executable ≡ false
  pub ascending : IsAscending inv.tools
  pub tools : All (IsValidTool limits text) inv.tools
  pub count : length inv.tools ≤ limits.max_tools

check_document-Ensures :
    (limits : InventoryLimits) (text : Bytes) (doc : Document) (rest : Bytes)
    → IsFilled limits text doc
    → Ensures (IsInventoryOf limits text) (check_document doc rest)
unfolding check_document
check_document-Ensures limits text doc rest h = Ensures-require (null rest) _ λ _.
    Ensures-require (doc.have_version && doc.have_server && doc.have_tools) _ λ complete.
      Ensures-require (doc.inventory.version == 1) _ λ one.
        Ensures-require (is_sorted doc.inventory.tools) _ λ sorted.
          Ensures-require (not (has_neighbours doc.inventory.tools)) _ λ unlike. holds (record {
            version = ==→eq _ _ one;
            executable = h.executable (ground arith);
            ascending = ascending doc.inventory.tools sorted (not-true→false _ unlike);
            tools = h.tools.each;
            count = h.tools.count;
          })

pub parse_inventory-Ensures :
    (limits : InventoryLimits) (text : Bytes)
    → Ensures (IsInventoryOf limits text) (parse_inventory limits text)
unfolding parse_inventory
parse_inventory-Ensures limits text =
    let start = skip_space-IsTail dialect text in
    Ensures-bind (expect-Shortens b'{' _ (skip_space dialect text)) λ body p.
      let inside = IsTail-trans (IsRest-IsTail p) start in
      Ensures-bind
        (object_body-Moves (IsFilled limits text) dialect _ _ _ (inventory_member limits)
          empty_document body
          (λ key x u h j. inventory_member-Keeps limits text key x u h (IsTail-trans j inside))
          (record { executable = λ e. cc; tools = record { each = tt; count = omega arith } }))
        λ (doc, r) (h, q). check_document-Ensures limits text doc (skip_space dialect r) h
