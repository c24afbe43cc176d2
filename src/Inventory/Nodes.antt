-- ===== src/Inventory/Nodes.antt =====
-- The nodes of an inventory: `All` against the relation of membership.
use sophons.Base.{String, ◌≡◌, ◌⊎◌, inl, inr, true, [], ◌∷◌, arith, eq_iff}
use sophons.Base.Dict.{Dict, Names, lookup, insert, has, lookup-insert}
use sophons.Variables.{Variables}
use sophons.Inventory.{
  Group, group, Groups, end, child, Inventory, add_hosts, all_nodes, all_children,
}
use sophons.Inventory.Membership.{
  InGroup, InSome, below, copy-has, first, has-copy, here, later, not-has-nil, here, below, first,
  later,
}

has-add_hosts :
    (hosts : Dict Variables) (n : String) (all : Names)
    → has n (add_hosts hosts all) ≡ true
    → (has n hosts ≡ true) ⊎ (has n all ≡ true)
unfolding add_hosts lookup
has-add_hosts [] n all h = inr h
has-add_hosts ((j, v) ∷ hosts) n all h =
    ground (arith, has-add_hosts hosts n (insert j tt all), lookup-insert n j tt all, eq_iff n j)

add_hosts-has :
    (hosts : Dict Variables) (n : String) (all : Names)
    → (has n hosts ≡ true) ⊎ (has n all ≡ true)
    → has n (add_hosts hosts all) ≡ true
unfolding add_hosts lookup
add_hosts-has [] n all h = ground arith
add_hosts-has ((j, v) ∷ hosts) n all h =
    ground (arith, add_hosts-has hosts n (insert j tt all), lookup-insert n j tt all, eq_iff n j)

mutual
  unfolding all_nodes

  all_nodes-InGroup : (g : Group) (n : String) → has n (all_nodes g) ≡ true → InGroup n g
  all_nodes-InGroup (group hosts vars children) n h =
      elim (all_children-InSome children n (add_hosts hosts []) h) [
        | inl own ↦ elim (has-add_hosts hosts n [] own) [
          | inl p ↦ here p
          | inr q ↦ absurd (not-has-nil n q)
        ]
        | inr s ↦ below s
      ]

  all_children-InSome :
      (gs : Groups) (n : String) (all : Names)
      → has n (all_children gs all) ≡ true
      → (has n all ≡ true) ⊎ InSome n gs
  all_children-InSome end n all h = inl h
  all_children-InSome (child c g rest) n all h = elim (all_children-InSome rest n _ h) [
    | inl own ↦ elim (has-copy n all (all_nodes g) own) [
      | inl inner ↦ inr (first (all_nodes-InGroup g n inner))
      | inr old ↦ inl old
    ]
    | inr s ↦ inr (later s)
  ]

all_children-has :
    (gs : Groups) (n : String) (all : Names) → has n all ≡ true → has n (all_children gs all) ≡ true
unfolding all_nodes
all_children-has end n all h = h
all_children-has (child c g rest) n all h =
    all_children-has rest n _ (copy-has n all (all_nodes g) (inr h))

mutual
  unfolding all_nodes

  InGroup-all_nodes : {n : String} {g : Group} → InGroup n g → has n (all_nodes g) ≡ true
  InGroup-all_nodes {n} (here {hosts} {vars} {children} h) =
      all_children-has children n _ (add_hosts-has hosts n [] (inl h))
  InGroup-all_nodes (below s) = InSome-all_children _ s

  InSome-all_children :
      {n : String} {gs : Groups} (all : Names) → InSome n gs → has n (all_children gs all) ≡ true
  InSome-all_children {n} all (first {g} {rest} i) =
      all_children-has rest n _ (copy-has n all (all_nodes g) (inl (InGroup-all_nodes i)))
  InSome-all_children all (later s) = InSome-all_children _ s
