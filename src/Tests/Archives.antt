-- ===== src/Tests/Archives.antt =====
-- Archives: one that is written and extracted, and two that are compared.
use sophons.Base.{
  ℕ, ◌≡◌, ◌↔◌, refl, String, str_eq, Bool, true, false, Option, none, List, [], ◌∷◌, map,
}
use sophons.Base.Int.{pos}
use sophons.Base.Dict.{Dict}
use sophons.Base.Action.{Outcome, ok, err, message, each}
use sophons.Archive.{Member, FileTree, type_dir, type_reg, TypeFlag, tar, untar}
use sophons.Archive.Laws.{Node, directory, regular, AllRead, make, untar-tar}
use sophons.Tardiff
use sophons.Tardiff.{Archive, Entry, tar_to_entries, main}
use sophons.Tardiff.Laws.{main_zero_iff}
use sophons.Tardiff.Entries.{last_entry}

-- The paths that have been made.
abbrev Made : Type 0
Made = List String

abbrev add : String → Made → Outcome (Unit {0}) × Made
add path w = (ok tt, path ∷ w)

-- An entry's information is whether it is a directory.
abbrev type_of : Bool → TypeFlag
type_of true = type_dir
type_of false = type_reg

abbrev plays : FileTree Made Bool
plays = record {
  walk = λ src w.
      record { file = "plays"; info = true; error = none }
      ∷ record { file = "plays/site.yml"; info = false; error = none }
      ∷ [];
  is_dir = λ info. info;
  is_symlink = λ info. false;
  rel = λ dir file. ok file;
  dir = λ file. ".";
  join = λ a b. b;
  readlink = λ file w. err (message "not a link");
  file_info_header = λ info link.
      ok (record { name = "site.yml"; type_flag = type_of info; mode = 0o755; linkname = link });
  accepted = λ header. ok tt;
  data_of = λ file w. ok "- hosts: all";
  mkdir_all = λ path mode. add path;
  open_file = λ path mode. add path;
  copy_to = λ path content w. (ok tt, w);
  symlink = λ target path. add path;
}

abbrev nodes : List Node
nodes = directory "plays" 0o755 ∷ regular "plays/site.yml" 0o755 "- hosts: all" ∷ []

plays_read : AllRead plays "plays" [] (plays.walk "plays" []) nodes
plays_read = (
  record {
    no_error = refl;
    relative = refl;
    kind = (refl, refl);
    found = record { name = "site.yml"; type_flag = type_dir; mode = 0o755; linkname = "" };
    describes = refl;
    same_header = refl;
    accepted = refl;
  },
  (
    record {
      no_error = refl;
      relative = refl;
      kind = (refl, refl, refl);
      found = record { name = "site.yml"; type_flag = type_reg; mode = 0o755; linkname = "" };
      describes = refl;
      same_header = refl;
      accepted = refl;
    },
    tt,
  ),
)

untar-tar_example :
    (members : List Member) × (tar plays "plays" [] ≡ ok members)
    × ((w' : Made) → untar plays (map ok members) "/tmp" w' ≡ each (make plays "/tmp") nodes w')
untar-tar_example = untar-tar plays "plays" "/tmp" [] nodes plays_read

abbrev header : String → Tardiff.Header
header name = record {
  name = name;
  linkname = "";
  size = pos 1;
  mode = pos 0o644;
  uid = pos 0;
  gid = pos 0;
  uname = "root";
  gname = "root";
}

abbrev by_sophons : Archive
by_sophons = ok (header "etc/motd", ok "da39") ∷ ok (header "var/log/dpkg.log", ok "aa01") ∷ []

abbrev by_ansible : Archive
by_ansible = ok (header "etc/motd", ok "da39") ∷ []

abbrev motd : Dict Entry
motd = ("/etc/motd", Tardiff.entry_of (header "etc/motd") "da39") ∷ []

main_zero_iff_example :
    (main by_sophons by_ansible ≡ 0)
    ↔ ((k : String) → last_entry k by_sophons ≡ last_entry k by_ansible)
unfolding tar_to_entries sophons.Base.Dict.insert
main_zero_iff_example = main_zero_iff by_sophons by_ansible motd motd refl refl
