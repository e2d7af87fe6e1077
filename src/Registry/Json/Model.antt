-- ===== src/Registry/Json/Model.antt =====
-- `Json` of src/registry.cpp, and insertion into the `std::map` of an object.
use mcp_observatory.Prelude.{if◌then◌else◌, Bytes, Bool, equal, before, Option, none, some}

-- The variant, with a constructor for a string that is a number. An object's members stand in the
-- order of their keys, as `std::map` keeps them.
mutual
  pub data Json : Type 0 where
    null_value : Json
    boolean : Bool → Json
    text : Bytes → Json
    number : Bytes → Json
    array : Items → Json
    object : Fields → Json

  pub data Items : Type 0 where
    nil : Items
    cons : Json → Items → Items

  pub data Fields : Type 0 where
    end : Fields
    field : Bytes → Json → Fields → Fields

unfoldable pub keep_field : Bytes → Json → Option Fields → Option Fields
keep_field key value none = none
keep_field key value (some rest) = some (field key value rest)

-- `object.emplace(key, child)`: with a key that is there nothing is inserted
unfoldable pub emplace : Bytes → Json → Fields → Option Fields
unfolding keep_field
emplace key value end = some (field key value end)
emplace key value (field k v rest) =
    let later = keep_field k v (emplace key value rest) in
    if equal key k
    then none
    else if before key k
    then some (field key value (field k v rest))
    else later

-- `array.push_back(child)`
unfoldable pub push_back : Json → Items → Items
push_back value nil = cons value nil
push_back value (cons x rest) = cons x (push_back value rest)
