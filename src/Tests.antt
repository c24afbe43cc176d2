-- ===== src/Tests.antt =====
-- A machine whose files are a dictionary of permissions, and the theorems at concrete inputs.
mod Files
mod FileTasks
mod Groups
mod Yaml
mod Includes
mod Templates
mod Rendered
mod Executer
mod Archives
mod Hosts
mod Reports
mod Pools
mod Commands
mod Packages
mod Plays
use sophons.Base.{ℕ, String, Bool, true, false, Option, none, some, List, [], ◌∷◌, if◌then◌else◌}
use sophons.Base.Dict.{Dict, lookup, insert, has}
use sophons.Base.Int.{ℤ}
use sophons.Base.Action.{Error, not_exist, Outcome, ok, err}
use sophons.Os.{Os, FileInfo, StatT}

abbrev pub Disk : Type 0
Disk = Dict ℕ

abbrev pub info_of : ℕ → FileInfo
info_of perm = record {
  perm = perm;
  is_symlink = false;
  is_dir = true;
  is_regular = false;
  mod_time = 0;
  file_size = 0;
  sys = some (record { uid = 0; gid = 0; nlink = 1; size = 0 });
}

abbrev pub found : Option ℕ → Outcome FileInfo
found none = err not_exist
found (some perm) = ok (info_of perm)

abbrev pub make : String → ℕ → Disk → Outcome (Unit {0}) × Disk
make path perm w = if has path w then (ok tt, w) else (ok tt, insert path perm w)

abbrev pub set : String → ℕ → Disk → Outcome (Unit {0}) × Disk
set path perm w = (ok tt, insert path perm w)

abbrev pub keep : Disk → Outcome (Unit {0}) × Disk
keep w = (ok tt, w)

abbrev pub glob_one : String → Bool → List String
glob_one path true = path ∷ []
glob_one path false = []

abbrev pub memory : Os
memory = record {
  World = Disk;
  lstat = λ path w. found (lookup path w);
  stat = λ path w. found (lookup path w);
  dir = λ path. "/";
  base = λ path. path;
  stat_in = λ dir name w. found (lookup name w);
  readlink = λ path w. err not_exist;
  read_file = λ path w. err not_exist;
  glob = λ path w. ok (glob_one path (has path w));
  walk_dir = λ path w. [];
  chmod = set;
  chown = λ path uid gid w. keep w;
  lchown = λ path uid gid w. keep w;
  remove_all = λ path w. keep w;
  remove = λ path w. keep w;
  mkdir = make;
  mkdir_all = make;
  symlink = λ source path w. set path 0o777 w;
  create = λ path w. set path 0o644 w;
  write_file = λ path content perm w. set path perm w;
  copy_file = λ source path w. set path 0o644 w;
  lookup_id = λ name w. err not_exist;
  lookup_user = λ name w. ok "0";
  lookup_group_id = λ name w. err not_exist;
  lookup_group = λ name w. ok "0";
  user_name = λ id w. ok "root";
  group_name = λ id w. ok "root";
}

abbrev pub disk : Disk
disk = ("/srv", 0o755) ∷ []
