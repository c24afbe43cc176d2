-- ===== src/Inventory/Precedence.antt =====
-- Which value a variable of a host gets: `NodeVars`.
use sophons.Base.{
  ap, ◌∙◌, is_some, String, ◌≡◌, refl, Bool, false, not, ◌&&◌, ◌||◌, Option, some, none, [], ◌∷◌,
  arith, is_empty, if◌then◌else◌,
}
use sophons.Base.Dict.{Dict, lookup, insert, copy, has, or_else, lookup-copy}
use sophons.Variables.{Any, Variables, merge}
use sophons.Inventory.{
  Group, group, Groups, end, child, Inventory, node_vars, children_vars_from, inventory_node_vars,
  merge_host, merge_children,
}
use sophons.Inventory.Membership.{InSome}

-- What a host's entry gives to the variable.
abbrev pub value_of : Option Variables → String → Option Any
value_of none k = none
value_of (some v) k = lookup k v

-- The value that a group's own host entry gives to the variable, or else a child's. Of two children
-- that give one, the later in the order of the range wins.
mutual
  pub host_value : Group → String → String → Option Any
  host_value (group hosts vars children) node k =
      or_else (host_value_below children node k) (value_of (lookup node hosts) k)

  pub host_value_below : Groups → String → String → Option Any
  host_value_below end node k = none
  host_value_below (child c g rest) node k =
      or_else (host_value_below rest node k) (host_value g node k)

or_else_assoc {ℓ} :
    {A : Type ℓ} (a b c : Option A) → or_else a (or_else b c) ≡ or_else (or_else a b) c
or_else_assoc none b c = refl
or_else_assoc (some a) b c = refl

or_else-none {ℓ} : {A : Type ℓ} (a : Option A) → or_else a none ≡ a
or_else-none none = refl
or_else-none (some a) = refl

or_else_self {ℓ} : {A : Type ℓ} (a : Option A) → or_else a a ≡ a
or_else_self none = refl
or_else_self (some a) = refl

lookup-nil : (k : String) → lookup {V = Any} k [] ≡ none
unfolding lookup
lookup-nil k = refl

-- Whether a group gives the node any variable: its own hosts bring its variables, and so does a
-- child that gives some.
unfoldable mutual
  pub gives : Group → String → Bool
  gives (group hosts vars children) node =
      gives_below children node || (has node hosts && not (is_empty vars))

  pub gives_below : Groups → String → Bool
  gives_below end node = false
  gives_below (child c g rest) node = gives g node || gives_below rest node

-- The value that the groups give to the variable: a child's wins over its parent's.
mutual
  pub group_value : Group → String → String → Option Any
  group_value (group hosts vars children) node k =
      or_else (group_value_below children node k)
        (if has node hosts || gives_below children node then lookup k vars else none)

  pub group_value_below : Groups → String → String → Option Any
  group_value_below end node k = none
  group_value_below (child c g rest) node k =
      or_else (group_value_below rest node k) (group_value g node k)

or_false : (a b : Bool) → (a || b) ≡ false → (a ≡ false) × (b ≡ false)
or_false a b h = ground arith

no_value :
    (own : Bool) (vars : Variables) (k : String) {below : Bool}
    → below ≡ false
    → (own && not (is_empty vars)) ≡ false
    → (if own || below then lookup k vars else none) ≡ none
unfolding lookup
no_value own [] k h h' = ground arith
no_value own (p ∷ vars) k h h' = ground arith

is_empty-insert : (k : String) (v : Any) (m : Variables) → is_empty (insert k v m) ≡ false
unfolding insert
is_empty-insert k v [] = refl
is_empty-insert k v ((j, w) ∷ m) = ground arith

is_empty-copy : (a b : Variables) → is_empty (copy a b) ≡ (is_empty a && is_empty b)
unfolding copy
is_empty-copy a [] = ground arith
is_empty-copy a ((k, v) ∷ b) = ground (arith, is_empty-insert k v (copy a b))

merge_host-host_vars :
    (o : Option Variables) (vars : Variables) (k : String)
    → lookup k (merge_host o vars).0 ≡ value_of o k
merge_host-host_vars none vars k = lookup-nil k
merge_host-host_vars (some v) vars k = rw (lookup-copy, lookup-nil) (or_else-none (lookup k v))

lookup-merge_children :
    (o : Option Variables) (vars : Variables) (k : String) (cv : Variables)
    → lookup k (merge_children vars (merge_host o vars).1 cv)
      ≡ or_else (lookup k cv) (if is_some o || not (is_empty cv) then lookup k vars else none)
lookup-merge_children none vars k [] = rw (lookup-nil)
lookup-merge_children (some v) vars k [] =
    rw (lookup-copy, lookup-nil) (or_else-none (lookup k vars))
lookup-merge_children none vars k (p ∷ cv) = simp (lookup-copy, lookup-nil, or_else-none)
lookup-merge_children (some v) vars k (p ∷ cv) =
    simp (lookup-copy, lookup-nil, or_else-none, or_else_self)

is_empty-merge_children :
    (o : Option Variables) (vars cv : Variables)
    → is_empty (merge_children vars (merge_host o vars).1 cv)
      ≡ (is_empty cv && not (is_some o && not (is_empty vars)))
is_empty-merge_children none vars [] = refl
is_empty-merge_children (some v) vars [] = ground (arith, is_empty-copy [] vars)
is_empty-merge_children o vars (p ∷ cv) =
    ground (arith, is_empty-copy (merge (merge_host o vars).1 vars) (p ∷ cv))

mutual
  unfolding node_vars host_value

  node_vars-host_value :
      (g : Group) (node k : String) → lookup k (node_vars g node).0 ≡ host_value g node k
  node_vars-host_value (group hosts vars children) node k =
      children_vars-host_value children node k (merge_host (lookup node hosts) vars).0 []
      ∙ ap (or_else (host_value_below children node k))
          (merge_host-host_vars (lookup node hosts) vars k)

  children_vars-host_value :
      (gs : Groups) (node k : String) (host_vars children_vars : Variables)
      → lookup k (children_vars_from gs node host_vars children_vars).0
        ≡ or_else (host_value_below gs node k) (lookup k host_vars)
  children_vars-host_value end node k hv cv = refl
  children_vars-host_value (child c g rest) node k hv cv =
      rw (children_vars-host_value rest node k, lookup-copy, node_vars-host_value g node k)
        (or_else_assoc (host_value_below rest node k) _ _)

mutual
  unfolding node_vars gives

  is_empty-node_vars :
      (g : Group) (node : String) → is_empty (node_vars g node).1 ≡ not (gives g node)
  is_empty-node_vars (group hosts vars children) node =
      is_empty-merge_children (lookup node hosts) vars _
      ∙ rw (is_empty-children_vars children node (merge_host (lookup node hosts) vars).0 [])
          (ground arith)

  is_empty-children_vars :
      (gs : Groups) (node : String) (hv cv : Variables)
      → is_empty (children_vars_from gs node hv cv).1 ≡ (is_empty cv && not (gives_below gs node))
  is_empty-children_vars end node hv cv = ground arith
  is_empty-children_vars (child c g rest) node hv cv =
      rw (is_empty-children_vars rest node, is_empty-copy, is_empty-node_vars g node) (ground arith)

mutual
  unfolding node_vars group_value

  node_vars-group_value :
      (g : Group) (node k : String) → lookup k (node_vars g node).1 ≡ group_value g node k
  node_vars-group_value (group hosts vars children) node k =
      let hv = (merge_host (lookup node hosts) vars).0 in
      lookup-merge_children (lookup node hosts) vars k _
      ∙ rw
          (
            children_vars-group_value children node k hv [],
            is_empty-children_vars children node hv [],
          )
          (ground (arith, lookup-nil k))

  children_vars-group_value :
      (gs : Groups) (node k : String) (host_vars children_vars : Variables)
      → lookup k (children_vars_from gs node host_vars children_vars).1
        ≡ or_else (group_value_below gs node k) (lookup k children_vars)
  children_vars-group_value end node k hv cv = refl
  children_vars-group_value (child c g rest) node k hv cv =
      rw (children_vars-group_value rest node k, lookup-copy, node_vars-group_value g node k)
        (or_else_assoc (group_value_below rest node k) _ _)

mutual
  unfolding group_value gives

  group_value-none :
      (g : Group) (node k : String) → gives g node ≡ false → group_value g node k ≡ none
  group_value-none (group hosts vars children) node k h =
      rw (group_value_below-none children node k (or_false _ _ h).0)
        (no_value (has node hosts) vars k (or_false _ _ h).0 (or_false _ _ h).1)

  group_value_below-none :
      (gs : Groups) (node k : String)
      → gives_below gs node ≡ false
      → group_value_below gs node k ≡ none
  group_value_below-none end node k h = refl
  group_value_below-none (child c g rest) node k h =
      let (h_first, h_rest) = or_false (gives g node) (gives_below rest node) h in
      rw (group_value_below-none rest node k h_rest) (group_value-none g node k h_first)

-- `Inventory.NodeVars` gives a variable the value that the node's own entry has for it in some
-- group; where no entry has one, the value of a group, and there a child's wins over its parent's.
pub inventory_node_vars_value :
    (i : Inventory) (node k : String)
    → lookup k (inventory_node_vars i node)
      ≡ or_else (host_value_below i.groups node k) (group_value_below i.groups node k)
unfolding inventory_node_vars
inventory_node_vars_value i node k = rw (
  lookup-copy,
  children_vars-host_value i.groups node k,
  children_vars-group_value i.groups node k,
  lookup-nil,
  or_else-none,
  or_else-none,
)

-- A node that is in a group through its children only does not get the group's variables, unless
-- some child gives it a variable of its own.
pub parent_vars_dropped :
    (hosts : Dict Variables) (vars : Variables) (children : Groups) (node k : String)
    → InSome node children
    → has node hosts ≡ false
    → gives_below children node ≡ false
    → lookup k (node_vars (group hosts vars children) node).1 ≡ none
unfolding gives
parent_vars_dropped hosts vars children node k _ own below =
    node_vars-group_value (group hosts vars children) node k
    ∙ group_value-none (group hosts vars children) node k (rw (own, below))
