-- ===== src/Playbook/Main/Laws.antt =====
-- cmd/executer/main.go: which plays a run of the executer applies, and with which variables.
use sophons.Base.{◌≡◌, ◌⊎◌, String, str_eq, Bool, true, false, List, [], ◌∷◌}
use sophons.Base.Dict.{Dict}
use sophons.Base.Action.{Outcome, ok, wrap}
use sophons.Variables.{Variables}
use sophons.Inventory.{Inventory, find_node}
use sophons.Inventory.Membership.{NamedSome}
use sophons.Archive.{FileTree}
use sophons.Task.{Shared, Jinja, Contents, Registration}
use sophons.Role.{Role}
use sophons.Role.Load.{discover_roles}
use sophons.Playbook.{Play, Site}
use sophons.Playbook.Main.{Flags, Host, flags_fit, unpack, site_of}

-- A play is for the node where its hosts are the group `all`, a group that holds the node itself or
-- through a child, or the node.
abbrev pub IsFor : Inventory → String → Play → Type 0
IsFor inventory node p =
    ((p.hosts ≡ "all") ⊎ NamedSome p.hosts node inventory.groups) ⊎ (p.hosts ≡ node)

-- `chosen` is the plays of a playbook that are for the node, in their order.
pub data Chosen (inventory : Inventory) (node : String) : List Play → List Play → Type 0 where
  no_more : Chosen inventory node [] []
  chosen :
      {p : Play} {plays rest : List Play}
      → IsFor inventory node p
      → Chosen inventory node plays rest
      → Chosen inventory node (p ∷ plays) (p ∷ rest)
  passed :
      {p : Play} {plays rest : List Play}
      → (IsFor inventory node p → ⊥)
      → Chosen inventory node plays rest
      → Chosen inventory node (p ∷ plays) rest

-- What is known of the files that a run with an inventory reads.
pub record Reads {W Info : Type 0} (tree : FileTree W Info) (host : Host W) (flags : Flags)
    (path : String) (w w' : W) : Type 0 where
  pub inventory_text : String
  pub playbook_text : String
  pub playbook_dir : String
  pub inventory : Inventory
  pub roles : Dict Role
  pub plays : List Play
  pub one_argument : flags.args ≡ path ∷ []
  pub fit : flags_fit flags ≡ true
  pub has_inventory : str_eq flags.inventory_path "" ≡ false
  pub inventory_read : host.read_file flags.inventory_path w ≡ ok inventory_text
  pub inventory_parsed : host.unmarshal_inventory inventory_text ≡ ok inventory
  pub unpacked : unpack tree host flags path w ≡ (ok playbook_dir, w')
  pub roles_found : discover_roles (host.dir_fs (tree.join playbook_dir "roles") w') ≡ ok roles
  pub playbook_read : host.read_file path w' ≡ ok playbook_text
  pub playbook_parsed : host.unmarshal_playbook playbook_text ≡ ok plays

module _ {W Info C R : Type 0} (jinja : Jinja) (contents : Contents W C R)
    (types : Dict Registration) (tree : FileTree W Info) (host : Host W) where
  -- What the plays do to the machine, and their error.
  abbrev pub result_of : Outcome (Unit {0}) × Shared W C → Outcome (Unit {0}) × W
  result_of done = (wrap "failed to run playbook" done.0, done.1.world)

  abbrev pub found_site : Flags → String → String → Inventory → Dict Role → Site W
  found_site flags path playbook_dir inventory roles =
      site_of tree host flags path (tree.join playbook_dir "roles") (find_node inventory flags.node)
        roles
