-- ===== src/Playbook/Main.antt =====
-- cmd/executer/main.go: the function main, which reads the inventory, unpacks the archive, finds the
-- roles and runs the playbook.
pub mod Laws
use sophons.Base.{String, str_eq, Bool, not, ◌&&◌, ◌||◌, List, [], ◌∷◌, if◌then◌else◌}
use sophons.Base.Dict.{Dict, Names}
use sophons.Base.Action.{
  message, Outcome, ok, err, and_then, wrap, Action, read, pure, raise, wrapping, ◌>>=◌, ◌>>◌,
}
use sophons.Variables.{Variables, load_from_file}
use sophons.Inventory.{Inventory, only_all, find_node, inventory_node_vars}
use sophons.Archive.{Member, FileTree, untar}
use sophons.Task.{Shared, Jinja, Contents, Registration}
use sophons.Role.{Role}
use sophons.Role.Load.{Files, discover_roles}
use sophons.Playbook.{Play, Site, playbook_apply}

-- The flags, and the arguments after them.
pub record Flags : Type 0 where
  pub inventory_path : String
  pub data_archive : String
  pub playbooks_dir_name : String
  pub node : String
  pub args : List String

-- os.ReadFile, yaml.Unmarshal, what is below a directory for os.DirFS, and the members of an archive
-- that has been opened.
pub record Host (W : Type 0) : Type 0 where
  pub read_file : String → W → Outcome String
  pub unmarshal_inventory : String → Outcome Inventory
  pub unmarshal_playbook : String → Outcome (List Play)
  pub unmarshal_vars : String → Outcome Variables
  pub dir_fs : String → W → Files
  pub open_archive : String → W → Outcome (List (Outcome Member))

-- Both of the flags for an archive are given, or none.
unfoldable pub flags_fit : Flags → Bool
flags_fit flags = not (
    (not (str_eq flags.data_archive "") && str_eq flags.playbooks_dir_name "")
    || (str_eq flags.data_archive "" && not (str_eq flags.playbooks_dir_name "")))

module _ {W Info : Type 0} (tree : FileTree W Info) (host : Host W) where
  -- The groups that the node is in, and its variables.
  unfoldable pub read_inventory : Flags → W → Outcome (Names × Variables)
  read_inventory flags w =
      if str_eq flags.inventory_path ""
      then ok (only_all, [])
      else and_then (wrap "failed to read inventory" (host.read_file flags.inventory_path w))
          λ text.
            and_then (wrap "failed to unmarshal inventory" (host.unmarshal_inventory text))
              λ inventory.
                ok (find_node inventory flags.node, inventory_node_vars inventory flags.node)

  -- The directory of the playbooks, once the archive is unpacked.
  unfoldable pub unpack : Flags → String → Action W String
  unfolding untar ◌>>=◌
  unpack flags path = if str_eq flags.data_archive "" then pure (tree.dir path) else (do
    wrapping "failed to untar archive" (do
      archive ← read (host.open_archive flags.data_archive)
      untar tree archive (tree.dir flags.data_archive))
    pure (tree.join (tree.dir flags.data_archive) flags.playbooks_dir_name))

  abbrev pub site_of : Flags → String → String → Names → Dict Role → Site W
  site_of flags path roles_dir groups roles = record {
    node = flags.node;
    groups = groups;
    roles = roles;
    role_path = tree.join roles_dir;
    play_path = tree.dir path;
    load_vars =
        λ file. load_from_file host.read_file host.unmarshal_vars (tree.join (tree.dir path) file);
    read_playbook = host.read_file path;
    unmarshal = host.unmarshal_playbook;
  }

module _ {W Info C R : Type 0} (jinja : Jinja) (contents : Contents W C R)
    (types : Dict Registration) (tree : FileTree W Info) (host : Host W) where
  -- `heap` is the contents that tasks point to once they are read.
  unfoldable pub run_site : List C → Variables → Site W → Action W (Unit {0})
  unfolding playbook_apply
  run_site heap vars site w =
      let (r, s) =
        playbook_apply jinja contents types site (record { world = w; vars = vars; heap = heap }) in
      (wrap "failed to run playbook" r, s.world)

  -- Each error stands for logger.Fatal, which ends the process.
  unfoldable pub run_spec : Flags → List C → String → Action W (Unit {0})
  unfolding read_inventory unpack run_site
  run_spec flags heap path = do
    found ← read (read_inventory tree host flags)
    playbook_dir ← unpack tree host flags path
    roles ←
        wrapping "failed to discover roles"
          (read (λ w. discover_roles (host.dir_fs (tree.join playbook_dir "roles") w)))
    run_site heap found.1
        (site_of tree host flags path (tree.join playbook_dir "roles") found.0 roles)

  unfoldable pub main : Flags → List C → Action W (Unit {0})
  unfolding run_spec flags_fit
  main flags heap = elim flags.args [
    | path ∷ [] ↦
        if flags_fit flags
        then run_spec flags heap path
        else raise (message "when either -d or -p is set, both flags must be set")
    | _ ↦ raise (message "usage: executer spec.yaml")
  ]
