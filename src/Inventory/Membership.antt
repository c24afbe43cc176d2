-- ===== src/Inventory/Membership.antt =====
-- Who is in which group: `Find` against an inductive relation.
use mathlib.Core.Path.{subst}
use sophons.Base.{
  String, ◌≡◌, refl, ◌↔◌, ◌⊎◌, inl, inr, Bool, true, false, [], ◌∷◌, arith, eq_iff, is_empty,
  if◌then◌else◌,
}
use sophons.Base.Dict.{Dict, Names, lookup, copy, has, lookup-insert, lookup-copy, has-insert_self}
use sophons.Variables.{Variables}
use sophons.Inventory.{
  Group, group, Groups, end, child, Inventory, mark, find, find_children, inventory_find, only_all,
  find_node,
}

-- A group holds its own hosts, and those that its children hold.
mutual
  pub data InGroup (node : String) : Group → Type 0 where
    here :
        {hosts : Dict Variables} {vars : Variables} {children : Groups}
        → has node hosts ≡ true
        → InGroup node (group hosts vars children)
    below :
        {hosts : Dict Variables} {vars : Variables} {children : Groups}
        → InSome node children
        → InGroup node (group hosts vars children)

  pub data InSome (node : String) : Groups → Type 0 where
    first :
        {name : String} {g : Group} {rest : Groups}
        → InGroup node g
        → InSome node (child name g rest)
    later :
        {name : String} {g : Group} {rest : Groups}
        → InSome node rest
        → InSome node (child name g rest)

-- Some group of that name, here or further down, holds the node.
mutual
  pub data Named (name node : String) : String → Group → Type 0 where
    itself :
        {here_name : String} {g : Group}
        → here_name ≡ name
        → InGroup node g
        → Named name node here_name g
    inside :
        {here_name : String} {hosts : Dict Variables} {vars : Variables} {children : Groups}
        → NamedSome name node children
        → Named name node here_name (group hosts vars children)

  pub data NamedSome (name node : String) : Groups → Type 0 where
    first :
        {child_name : String} {g : Group} {rest : Groups}
        → Named name node child_name g
        → NamedSome name node (child child_name g rest)
    later :
        {child_name : String} {g : Group} {rest : Groups}
        → NamedSome name node rest
        → NamedSome name node (child child_name g rest)

pub has-copy :
    (k : String) (a b : Names) → has k (copy a b) ≡ true → (has k b ≡ true) ⊎ (has k a ≡ true)
has-copy k a b h = ground (arith, lookup-copy k a b)

pub copy-has :
    (k : String) (a b : Names) → (has k b ≡ true) ⊎ (has k a ≡ true) → has k (copy a b) ≡ true
copy-has k a b h = ground (arith, lookup-copy k a b)

has-mark :
    (b : Bool) (k name : String) (a : Names)
    → has k (mark b name a) ≡ true
    → ((b ≡ true) × (name ≡ k)) ⊎ (has k a ≡ true)
has-mark b k name a h = ground (arith, lookup-insert k name tt a, eq_iff k name)

mark-has : (b : Bool) (k name : String) (a : Names) → has k a ≡ true → has k (mark b name a) ≡ true
mark-has b k name a h = ground (arith, lookup-insert k name tt a)

mark-has_self : (name : String) (a : Names) → has name (mark true name a) ≡ true
mark-has_self name a = has-insert_self name tt a

some_key : (m : Names) → is_empty m ≡ false → (k : String) × (has k m ≡ true)
unfolding lookup
some_key [] h = cc
some_key ((k, u) ∷ m) h = (k, ground (arith, eq_iff k k))

has-is_empty : (k : String) (m : Names) → has k m ≡ true → is_empty m ≡ false
unfolding lookup
has-is_empty k [] h = cc
has-is_empty k ((j, u) ∷ m) h = refl

pub not-has-nil : (k : String) → has {0} {V = Unit} k [] ≡ true → ⊥
unfolding lookup
not-has-nil k h = cc

nonempty : (b : Bool) → (if b then false else true) ≡ true → b ≡ false
nonempty b h = ground arith

mutual
  Named-InGroup :
      {name node here_name : String} {g : Group} → Named name node here_name g → InGroup node g
  Named-InGroup (itself e i) = i
  Named-InGroup (inside s) = below (NamedSome-InSome s)

  NamedSome-InSome : {name node : String} {gs : Groups} → NamedSome name node gs → InSome node gs
  NamedSome-InSome (first n) = first (Named-InGroup n)
  NamedSome-InSome (later s) = later (NamedSome-InSome s)

-- What a membership in the result of `find_children` comes from.
abbrev Origin : String → String → Groups → String → Names → Type 0
Origin k node gs name acc = (has k acc ≡ true) ⊎ NamedSome k node gs ⊎ ((name ≡ k) × InSome node gs)

mutual
  unfolding find

  find-Named :
      (g : Group) (name node k : String) → has k (find g name node) ≡ true → Named k node name g
  find-Named (group hosts vars children) name node k h =
      elim (find_children-Origin children name node (mark (has node hosts) name []) k h) [
        | inl own ↦ elim (has-mark (has node hosts) k name [] own) [
          | inl p ↦ itself p.1 (here p.0)
          | inr q ↦ absurd (not-has-nil k q)
        ]
        | inr (inl s) ↦ inside s
        | inr (inr p) ↦ itself p.0 (below p.1)
      ]

  find_children-Origin :
      (gs : Groups) (name node : String) (acc : Names) (k : String)
      → has k (find_children gs name node acc) ≡ true
      → Origin k node gs name acc
  find_children-Origin end name node acc k h = inl h
  find_children-Origin (child c g rest) name node acc k h =
      let found = find g c node in
      elim (find_children-Origin rest name node _ k h) [
        | inl own ↦ elim (has-mark _ k name (copy acc found) own) [
          | inl p ↦
              let (j, hj) = some_key found (nonempty _ p.0) in
              inr (inr (p.1, first (Named-InGroup (find-Named g c node j hj))))
          | inr q ↦ elim (has-copy k acc found q) [
            | inl inner ↦ inr (inl (first (find-Named g c node k inner)))
            | inr old ↦ inl old
          ]
        ]
        | inr (inl s) ↦ inr (inl (later s))
        | inr (inr p) ↦ inr (inr (p.0, later p.1))
      ]

-- `find_children` keeps what it has collected.
find_children-has :
    (gs : Groups) (name node k : String) (acc : Names)
    → has k acc ≡ true
    → has k (find_children gs name node acc) ≡ true
unfolding find
find_children-has end name node k acc h = h
find_children-has (child c g rest) name node k acc h =
    find_children-has rest name node k _
      (mark-has _ k name _ (copy-has k acc (find g c node) (inr h)))

mutual
  unfolding find

  InGroup-find :
      {node : String} {g : Group} (name : String)
      → InGroup node g
      → has name (find g name node) ≡ true
  InGroup-find {node} name (here {hosts} {vars} {children} h) =
      find_children-has children name node name (mark (has node hosts) name [])
        (rw h (mark-has_self name []))
  InGroup-find {node} name (below {hosts} {vars} {children} s) = InSome-find name _ s

  InSome-find :
      {node : String} {gs : Groups} (name : String) (acc : Names)
      → InSome node gs
      → has name (find_children gs name node acc) ≡ true
  InSome-find {node} name acc (first {name = c} {g} {rest} i) =
      find_children-has rest name node name _
        (rw (has-is_empty c (find g c node) (InGroup-find c i)) (mark-has_self name _))
  InSome-find name acc (later s) = InSome-find name _ s

mutual
  unfolding find

  Named-find :
      {k node name : String} {g : Group} → Named k node name g → has k (find g name node) ≡ true
  Named-find {k} {node} {name} {g} (itself e i) =
      subst (λ n. has n (find g name node) ≡ true) e (InGroup-find name i)
  Named-find {name} (inside s) = NamedSome-find name _ s

  NamedSome-find :
      {k node : String} {gs : Groups} (name : String) (acc : Names)
      → NamedSome k node gs
      → has k (find_children gs name node acc) ≡ true
  NamedSome-find {k} {node} name acc (first {child_name = c} {g} {rest} n) =
      find_children-has rest name node k _
        (mark-has _ k name _ (copy-has k acc (find g c node) (inl (Named-find n))))
  NamedSome-find name acc (later s) = NamedSome-find name _ s

inventory_find-NamedSome :
    (gs : Groups) (node k : String) (acc : Names)
    → has k (inventory_find gs node acc) ≡ true
    → (has k acc ≡ true) ⊎ NamedSome k node gs
unfolding inventory_find
inventory_find-NamedSome end node k acc h = inl h
inventory_find-NamedSome (child c g rest) node k acc h =
    elim (inventory_find-NamedSome rest node k _ h) [
      | inl own ↦ elim (has-copy k acc (find g c node) own) [
        | inl inner ↦ inr (first (find-Named g c node k inner))
        | inr old ↦ inl old
      ]
      | inr s ↦ inr (later s)
    ]

inventory_find-has :
    (gs : Groups) (node k : String) (acc : Names)
    → has k acc ≡ true
    → has k (inventory_find gs node acc) ≡ true
unfolding inventory_find
inventory_find-has end node k acc h = h
inventory_find-has (child c g rest) node k acc h =
    inventory_find-has rest node k _ (copy-has k acc (find g c node) (inr h))

NamedSome-inventory_find :
    {k node : String} {gs : Groups} (acc : Names)
    → NamedSome k node gs
    → has k (inventory_find gs node acc) ≡ true
unfolding inventory_find
NamedSome-inventory_find {k} {node} acc (first {child_name = c} {g} {rest} n) =
    inventory_find-has rest node k _ (copy-has k acc (find g c node) (inl (Named-find n)))
NamedSome-inventory_find acc (later s) = NamedSome-inventory_find _ s

has-all : (k : String) → has k only_all ≡ true → k ≡ "all"
unfolding lookup
has-all k h = ground (arith, eq_iff k "all")

all-has : (k : String) → k ≡ "all" → has k only_all ≡ true
unfolding lookup
all-has k h = ground (arith, eq_iff k "all")

-- `Inventory.Find` lists exactly the group `all` and the names of the groups that hold the node
-- themselves or through a child, whatever the order in which the maps are ranged over.
pub find_node_iff :
    (i : Inventory) (node k : String)
    → (has k (find_node i node) ≡ true) ↔ ((k ≡ "all") ⊎ NamedSome k node i.groups)
unfolding find_node
find_node_iff i node k = (
  λ h. elim (inventory_find-NamedSome i.groups node k _ h) [
    | inl own ↦ inl (has-all k own)
    | inr s ↦ inr s
  ],
  λ h. elim h [
    | inl e ↦ inventory_find-has i.groups node k _ (all-has k e)
    | inr s ↦ NamedSome-inventory_find _ s
  ],
)
