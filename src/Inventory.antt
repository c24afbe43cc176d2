-- ===== src/Inventory.antt =====
-- pkg/inventory/inventory.go: groups of hosts, who is in which group, and the variables of a host.
-- A map of groups is `Groups`, in the order in which a run of the program ranges over it.
pub mod Membership
pub mod Nodes
pub mod Precedence
use sophons.Base.{String, Bool, true, false, Option, some, none, [], ◌∷◌, is_empty, if◌then◌else◌}
use sophons.Base.Dict.{Dict, Names, lookup, insert, copy, has}
use sophons.Variables.{Variables, merge}

mutual
  pub data Group : Type 0 where
    group : Dict Variables → Variables → Groups → Group

  pub data Groups : Type 0 where
    end : Groups
    child : String → Group → Groups → Groups

pub record Inventory : Type 0 where
  pub groups : Groups

-- if cond { groups[name] = struct{}{} }
abbrev pub mark : Bool → String → Names → Names
mark b name groups = if b then insert name tt groups else groups

unfoldable mutual
  pub find : Group → String → String → Names
  find (group hosts vars children) name node =
      find_children children name node (mark (has node hosts) name [])

  pub find_children : Groups → String → String → Names → Names
  find_children end name node groups = groups
  find_children (child child_name g rest) name node groups =
      let found = find g child_name node in
      find_children rest name node
        (mark (if is_empty found then false else true) name (copy groups found))

-- for n := range g.Hosts { all[n] = struct{}{} }
unfoldable pub add_hosts : Dict Variables → Names → Names
add_hosts [] all = all
add_hosts ((n, v) ∷ hosts) all = add_hosts hosts (insert n tt all)

unfoldable mutual
  pub all_nodes : Group → Names
  all_nodes (group hosts vars children) = all_children children (add_hosts hosts [])

  pub all_children : Groups → Names → Names
  all_children end all = all
  all_children (child name g rest) all = all_children rest (copy all (all_nodes g))

-- The pair of host variables and group variables.
abbrev pub merge_host : Option Variables → Variables → Variables × Variables
merge_host none vars = ([], [])
merge_host (some v) vars = (merge [] v, merge [] vars)

abbrev pub merge_children : Variables → Variables → Variables → Variables
merge_children vars group_vars children_vars =
    if is_empty children_vars then group_vars else merge (merge group_vars vars) children_vars

unfoldable mutual
  pub node_vars : Group → String → Variables × Variables
  node_vars (group hosts vars children) node =
      let (host_vars, group_vars) = merge_host (lookup node hosts) vars in
      let (host_vars', children_vars) = children_vars_from children node host_vars [] in
      (host_vars', merge_children vars group_vars children_vars)

  pub children_vars_from : Groups → String → Variables → Variables → Variables × Variables
  children_vars_from end node host_vars children_vars = (host_vars, children_vars)
  children_vars_from (child name g rest) node host_vars children_vars =
      let (host_in_child, child_vars) = node_vars g node in
      children_vars_from rest node (merge host_vars host_in_child) (merge children_vars child_vars)

-- The methods of Inventory.
unfoldable pub inventory_find : Groups → String → Names → Names
unfolding find
inventory_find end node found = found
inventory_find (child name g rest) node found =
    inventory_find rest node (copy found (find g name node))

-- All nodes are part of the group `all`.
abbrev pub only_all : Names
only_all = ("all", tt) ∷ []

unfoldable pub find_node : Inventory → String → Names
unfolding inventory_find
find_node i node = inventory_find i.groups node only_all

unfoldable pub all_in_inventory : Inventory → Names
unfolding all_nodes
all_in_inventory i = all_children i.groups []

unfoldable pub inventory_node_vars : Inventory → String → Variables
unfolding node_vars
inventory_node_vars i node =
    let (host_vars, group_vars) = children_vars_from i.groups node [] [] in
    merge group_vars host_vars
