-- ===== src/Inventory/Changes.antt =====
-- What `compare_inventories` reports, against a description by lookup in the two tool lists.
use mcp_observatory.Prelude.{
  ◌≡◌, refl, sym, ◌∙◌, Bytes, true, false, Option, none, some, List, [], ◌∷◌, ◌++◌, append_assoc,
  append-nil, arith, if◌then◌else◌, equal, before, equal_iff, before_irrefl, before_trans,
  before_total, inl, inr, Bool-cases, ◌↔◌, not, null, equal_refl, subst,
}
use mcp_observatory.Inventory.Model.{
  InventoryTool, Inventory, ModifiedTool, InventoryDiff, identical,
}
use mcp_observatory.Inventory.Compare.{
  push_added, push_removed, push_modified, push_if_modified, walk, compare_inventories,
}

-- every tool of the list has a name after `name`
abbrev pub Below : Bytes → List InventoryTool → Type 0
Below name [] = Unit
Below name (t ∷ ts) = (before name t.name ≡ true) × Below name ts

-- strictly sorted by name, as `read_inventory` demands
abbrev pub IsAscending : List InventoryTool → Type 0
IsAscending [] = Unit
IsAscending (t ∷ ts) = Below t.name ts × IsAscending ts

-- the definition that a tool list gives for a name
unfoldable pub definition_of : Bytes → List InventoryTool → Option Bytes
definition_of name [] = none
definition_of name (t ∷ ts) =
    if equal t.name name then some t.canonical_definition else definition_of name ts

keep_unknown : Option Bytes → Bytes → List Bytes → List Bytes
keep_unknown none name names = name ∷ names
keep_unknown (some d) name names = names

-- the names of the second list that the first one lacks, in order
unfoldable pub additions : List InventoryTool → List InventoryTool → List Bytes
unfolding keep_unknown
additions old [] = []
additions old (n ∷ ns) = keep_unknown (definition_of n.name old) n.name (additions old ns)

keep_changed : Option Bytes → InventoryTool → List ModifiedTool → List ModifiedTool
keep_changed none t rest = rest
keep_changed (some d) t rest =
    if equal t.canonical_definition d then rest else record { name = t.name } ∷ rest

-- the tools of the first list to which the second one gives another definition, in order
unfoldable pub modifications : List InventoryTool → List InventoryTool → List ModifiedTool
unfolding keep_changed
modifications [] new = []
modifications (o ∷ os) new = keep_changed (definition_of o.name new) o (modifications os new)

pub Below-trans :
    (a b : Bytes) (ts : List InventoryTool) → before a b ≡ true → Below b ts → Below a ts
Below-trans a b [] h l = tt
Below-trans a b (t ∷ ts) h (p, l) = (before_trans a b t.name h p, Below-trans a b ts h l)

definition_of-Below :
    (name : Bytes) (ts : List InventoryTool) → Below name ts → definition_of name ts ≡ none
unfolding definition_of
definition_of-Below name [] l = refl
definition_of-Below name (t ∷ ts) (p, l) =
    ground (arith, equal_iff t.name name, before_irrefl name, definition_of-Below name ts l)

-- a tool before all of `ns` has no bearing on what is added
additions-Below :
    (o : InventoryTool) (os ns : List InventoryTool)
    → Below o.name ns
    → additions (o ∷ os) ns ≡ additions os ns
unfolding additions definition_of
additions-Below o os [] l = refl
additions-Below o os (n ∷ ns) (p, l) =
    ground (arith, equal_iff o.name n.name, before_irrefl n.name, additions-Below o os ns l)

modifications-Below :
    (n : InventoryTool) (os ns : List InventoryTool)
    → Below n.name os
    → modifications os (n ∷ ns) ≡ modifications os ns
unfolding modifications definition_of
modifications-Below n [] ns l = refl
modifications-Below n (o ∷ os) ns (p, l) =
    ground (arith, equal_iff n.name o.name, before_irrefl n.name, modifications-Below n os ns l)

-- a tool after `d` with the changes of two tool lists
abbrev extended : InventoryDiff → List InventoryTool → List InventoryTool → InventoryDiff
extended d os ns = record d {
  added = d.added ++ additions os ns;
  removed = d.removed ++ additions ns os;
  modified = d.modified ++ modifications os ns;
}

extended-nil : (d : InventoryDiff) → extended d [] [] ≡ d
unfolding additions modifications
extended-nil d = rw (append-nil d.added, append-nil d.removed, append-nil d.modified)

extended-added :
    (d : InventoryDiff) (n : InventoryTool) (os ns : List InventoryTool)
    → Below n.name os
    → extended (push_added d n.name) os ns ≡ extended d os (n ∷ ns)
extended-added d n os ns l =
    rw (additions-Below n ns os l, modifications-Below n os ns l)
      (unfold additions in rw (definition_of-Below n.name os l, append_assoc))

extended-removed :
    (d : InventoryDiff) (o : InventoryTool) (os ns : List InventoryTool)
    → Below o.name ns
    → extended (push_removed d o.name) os ns ≡ extended d (o ∷ os) ns
extended-removed d o os ns l =
    rw (additions-Below o os ns l)
      (unfold additions modifications in rw (definition_of-Below o.name ns l, append_assoc))

additions-same :
    (o n : InventoryTool) (os ns : List InventoryTool)
    → o.name ≡ n.name
    → Below o.name ns
    → additions (o ∷ os) (n ∷ ns) ≡ additions os ns
additions-same o n os ns e l =
    unfold additions definition_of in
    ground (arith, equal_iff o.name n.name, additions-Below o os ns l)

modifications-same :
    (o n : InventoryTool) (os ns : List InventoryTool)
    → o.name ≡ n.name
    → Below n.name os
    → modifications (o ∷ os) (n ∷ ns) ≡ (
        if equal o.canonical_definition n.canonical_definition
        then modifications os ns
        else record { name = o.name } ∷ modifications os ns)
modifications-same o n os ns e k =
    unfold modifications definition_of in
    ground (arith, equal_iff n.name o.name, modifications-Below n os ns k)

extended-same :
    (d : InventoryDiff) (o n : InventoryTool) (os ns : List InventoryTool)
    → o.name ≡ n.name
    → Below o.name ns
    → Below n.name os
    → extended (push_if_modified d o n) os ns ≡ extended d (o ∷ os) (n ∷ ns)
extended-same d o n os ns e l k =
    rw
      (
        additions-same o n os ns e l,
        additions-same n o ns os (sym e) k,
        modifications-same o n os ns e k,
      )
      (elim (Bool-cases (equal o.canonical_definition n.canonical_definition)) [
        | inl same ↦ rw same
        | inr other ↦ rw other (rw append_assoc)
      ])

-- one round of the loop on two tools
walk-extended :
    (os ns : List InventoryTool) (d : InventoryDiff)
    → IsAscending os
    → IsAscending ns
    → walk os ns d ≡ extended d os ns
unfolding walk
walk-extended [] [] d p q = sym (extended-nil d)
walk-extended [] (n ∷ ns) d p (l, q) = walk-extended [] ns _ tt q ∙ extended-added d n [] ns tt
walk-extended (o ∷ os) [] d (l, p) q = walk-extended os [] _ p tt ∙ extended-removed d o os [] tt
walk-extended (o ∷ os) (n ∷ ns) d (l, p) (k, q) = elim (Bool-cases (before o.name n.name)) [
  | inl gone ↦ rw gone (
      walk-extended os (n ∷ ns) _ p (k, q)
      ∙ extended-removed d o os (n ∷ ns) (gone, Below-trans o.name n.name ns gone k))
  | inr not_gone ↦ elim (Bool-cases (before n.name o.name)) [
    | inl fresh ↦
        rw (not_gone, fresh)
          (walk-extended (o ∷ os) ns _ (l, p) q
            ∙ extended-added d n (o ∷ os) ns (fresh, Below-trans n.name o.name os fresh l))
    | inr not_fresh ↦
        let e = before_total o.name n.name not_gone not_fresh in
        rw (not_gone, not_fresh)
          (walk-extended os ns _ p q
            ∙ extended-same d o n os ns e (subst (λ m. Below m ns) (sym e) k)
                (subst (λ m. Below m os) e l))
  ]
]

-- For tool lists that are strictly sorted by name, `compare_inventories` reports exactly: whether
-- the executables differ; in order, the names that only the new list has as added and those that
-- only the old list has as removed; and in order, the tools of the old list to which the new list
-- gives another definition as modified.
pub compare_inventories_exact :
    (old new : Inventory)
    → IsAscending old.tools
    → IsAscending new.tools
    → compare_inventories old new ≡ record {
      executable_changed = not (equal old.downstream_executable new.downstream_executable);
      added = additions old.tools new.tools;
      removed = additions new.tools old.tools;
      modified = modifications old.tools new.tools;
    }
unfolding compare_inventories
compare_inventories_exact old new p q = walk-extended old.tools new.tools _ p q

null-snoc {ℓ} : {A : Type ℓ} (xs : List A) (x : A) → null (xs ++ x ∷ []) ≡ false
null-snoc [] x = refl
null-snoc (y ∷ ys) x = refl

identical-push_added : (d : InventoryDiff) (name : Bytes) → identical (push_added d name) ≡ false
identical-push_added d name = ground (arith, null-snoc d.added name)

identical-push_removed :
    (d : InventoryDiff) (name : Bytes) → identical (push_removed d name) ≡ false
identical-push_removed d name = ground (arith, null-snoc d.removed name)

identical-push_modified :
    (d : InventoryDiff) (name : Bytes) → identical (push_modified d name) ≡ false
identical-push_modified d name = ground (arith, null-snoc d.modified (record { name = name }))

-- what the two branches for one name leave
identical-push_if_modified :
    (d : InventoryDiff) (o n : InventoryTool)
    → identical (push_if_modified d o n) ≡ true
    → (identical d ≡ true) × (o.canonical_definition ≡ n.canonical_definition)
identical-push_if_modified d o n h =
    elim (Bool-cases (equal o.canonical_definition n.canonical_definition)) [
      | inl same ↦ (rw same at h, (equal_iff _ _).0 same)
      | inr other ↦ cc (rw other at h, identical-push_modified d o.name)
    ]

InventoryTool-path :
    (o n : InventoryTool)
    → o.name ≡ n.name
    → o.canonical_definition ≡ n.canonical_definition
    → o ≡ n
InventoryTool-path o n p q = λ i. record { name = p i; canonical_definition = q i }

walk-identical :
    (os ns : List InventoryTool) (d : InventoryDiff)
    → identical (walk os ns d) ≡ true
    → (identical d ≡ true) × (os ≡ ns)
unfolding walk
walk-identical [] [] d h = (h, refl)
walk-identical [] (n ∷ ns) d h = cc ((walk-identical [] ns _ h).0, identical-push_added d n.name)
walk-identical (o ∷ os) [] d h = cc ((walk-identical os [] _ h).0, identical-push_removed d o.name)
walk-identical (o ∷ os) (n ∷ ns) d h = elim (Bool-cases (before o.name n.name)) [
  | inl gone ↦ cc ((walk-identical os (n ∷ ns) _ (rw gone at h)).0, identical-push_removed d o.name)
  | inr not_gone ↦ elim (Bool-cases (before n.name o.name)) [
    | inl fresh ↦ cc (
      (walk-identical (o ∷ os) ns _ (rw (not_gone, fresh) at h)).0,
      identical-push_added d n.name,
    )
    | inr not_fresh ↦
        let (rest, tails) = walk-identical os ns _ (rw (not_gone, not_fresh) at h) in
        let (start, same) = identical-push_if_modified d o n rest in
        let head = InventoryTool-path o n (before_total o.name n.name not_gone not_fresh) same in
        (start, λ i. head i ∷ tails i)
  ]
]

walk_self : (ts : List InventoryTool) (d : InventoryDiff) → walk ts ts d ≡ d
unfolding walk
walk_self [] d = refl
walk_self (t ∷ ts) d = rw (before_irrefl t.name, equal_refl t.canonical_definition) (walk_self ts d)

-- The comparison calls two inventories identical exactly when they name the same executable and
-- list the same tools, definitions included. Their order need not be sorted for this.
pub identical-compare_inventories :
    (old new : Inventory)
    → (identical (compare_inventories old new) ≡ true)
      ↔ ((old.downstream_executable ≡ new.downstream_executable) × (old.tools ≡ new.tools))
unfolding compare_inventories
identical-compare_inventories old new = (
  λ h.
      let (start, same) = walk-identical old.tools new.tools _ h in
      (ground (arith, equal_iff old.downstream_executable new.downstream_executable), same),
  λ (e, same). rw (same, walk_self new.tools, e, equal_refl new.downstream_executable),
)
