-- ===== src/Tests/Executer.antt =====
-- The executer on a node of an inventory, with an archive of one directory. What is done to the
-- machine is a list, the last first.
use sophons.Base.{refl, String, true, false, Bool, none, some, List, [], ◌∷◌}
use sophons.Base.Action.{not_exist, Outcome, ok, err, Action}
use sophons.Variables.{text}
use sophons.Inventory.{Inventory, group, end, child}
use sophons.Archive.{type_dir, Member, FileTree, untar}
use sophons.Role.Load.{Files, discover_roles}
use sophons.Playbook.{Play}
use sophons.Playbook.Main.{Flags, Host}
use sophons.Playbook.Main.Laws.{Reads}
use sophons.Tests.Plays.{play}

abbrev does : String → List String → Outcome (Unit {0}) × List String
does s w = (ok tt, s ∷ w)

abbrev machine : FileTree (List String) (Unit {0})
machine = record {
  walk = λ src w. [];
  is_dir = λ i. true;
  is_symlink = λ i. false;
  rel = λ src file. ok file;
  dir = λ path. "/tmp";
  join = λ dir name. name;
  readlink = λ file w. err not_exist;
  file_info_header = λ i link. err not_exist;
  accepted = λ h. ok tt;
  data_of = λ file w. err not_exist;
  mkdir_all = λ path mode. does path;
  open_file = λ path mode. does path;
  copy_to = λ path content. does path;
  symlink = λ link path. does path;
}

abbrev empty_files : Files
empty_files = record {
  read_file = λ path. err not_exist;
  stat_is_dir = λ path. err not_exist;
  read_dir = λ path. ok [];
  walk_dir = λ path. [];
  parse_vars = λ s. ok [];
  parse_tasks = λ s. ok [];
}

abbrev servers : Inventory
servers = record {
  groups = child "servers" (group (("web1", []) ∷ []) (("user", text "web") ∷ []) end) end;
}

abbrev playbook : List Play
playbook = play "databases" ∷ play "servers" ∷ []

abbrev directory : Member
directory = record {
  header = record { name = "playbooks"; type_flag = type_dir; mode = 0o755; linkname = "" };
  content = ok "";
}

abbrev host : Host (List String)
host = record {
  read_file = λ path w. ok path;
  unmarshal_inventory = λ s. ok servers;
  unmarshal_playbook = λ s. ok playbook;
  unmarshal_vars = λ s. ok [];
  dir_fs = λ dir w. empty_files;
  open_archive = λ path w. ok (ok directory ∷ []);
}

abbrev flags : Flags
flags = record {
  inventory_path = "inventory.yaml";
  data_archive = "/tmp/data.tar.gz";
  playbooks_dir_name = "playbooks";
  node = "web1";
  args = "playbooks/site.yaml" ∷ [];
}

site_reads : Reads machine host flags "playbooks/site.yaml" [] ("playbooks" ∷ [])
unfolding untar discover_roles sophons.Base.Action.◌>>=◌ sophons.Playbook.Main.flags_fit
    sophons.Playbook.Main.unpack
site_reads = record {
  inventory_text = "inventory.yaml";
  playbook_text = "playbooks/site.yaml";
  playbook_dir = "playbooks";
  inventory = servers;
  roles = [];
  plays = playbook;
  one_argument = refl;
  fit = refl;
  has_inventory = refl;
  inventory_read = refl;
  inventory_parsed = refl;
  unpacked = refl;
  roles_found = refl;
  playbook_read = refl;
  playbook_parsed = refl;
}
