-- ===== src/Tests/Groups.antt =====
-- Inventories.
use sophons.Base.{String, ◌≡◌, refl, ◌↔◌, ◌⊎◌, true, none, [], ◌∷◌}
use sophons.Base.Dict.{lookup, has, or_else}
use sophons.Variables.{text}
use sophons.Inventory.{
  Groups, Inventory, group, end, child, find_node, inventory_node_vars, node_vars,
}
use sophons.Inventory.Membership.{NamedSome, InSome, here, first, find_node_iff}
use sophons.Inventory.Precedence.{
  host_value_below, group_value_below, inventory_node_vars_value, parent_vars_dropped,
}

abbrev databases : Groups
databases = child "databases" (group (("db1", ("port", text "5432") ∷ []) ∷ []) [] end) end

abbrev servers : Inventory
servers = record { groups = child "servers" (group [] (("region", text "eu") ∷ []) databases) end }

find_node_iff_example :
    (has "servers" (find_node servers "db1") ≡ true)
    ↔ ((◌≡◌ {A = String} "servers" "all") ⊎ NamedSome "servers" "db1" servers.groups)
find_node_iff_example = find_node_iff servers "db1" "servers"

inventory_node_vars_value_example :
    lookup "port" (inventory_node_vars servers "db1")
    ≡ or_else
        (host_value_below servers.groups "db1" "port")
        (group_value_below servers.groups "db1" "port")
inventory_node_vars_value_example = inventory_node_vars_value servers "db1" "port"

db1_inside : InSome "db1" databases
unfolding lookup
db1_inside = first (here {hosts = ("db1", ("port", text "5432") ∷ []) ∷ []} refl)

parent_vars_dropped_example :
    lookup "region" (node_vars (group [] (("region", text "eu") ∷ []) databases) "db1").1 ≡ none
unfolding lookup sophons.Inventory.Precedence.gives_below
parent_vars_dropped_example =
    parent_vars_dropped [] (("region", text "eu") ∷ []) databases "db1" "region" db1_inside refl
      refl
