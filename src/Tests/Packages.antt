-- ===== src/Tests/Packages.antt =====
-- The tasks `apt` and `apt_repository`, on a machine that is the list of the packages installed.
use sophons.Base.{
  ◌↔◌, ℕ, String, str_eq, ◌≡◌, refl, Bool, true, false, not, ◌&&◌, Option, none, some, List, [],
  ◌∷◌, ◌++◌, if◌then◌else◌,
}
use sophons.Base.Text.{All, codes}
use sophons.Base.Action.{Outcome, ok}
use sophons.Result.{empty_result}
use sophons.Apt
use sophons.Apt.{Apt, AptClient}
use sophons.Apt.Apply.{is_installed, to_install}
use sophons.Apt.Apply
use sophons.Apt.Laws.{In, to_install_iff}
use sophons.AptRepository.{AptRepository, RepositoryClient, slug}
use sophons.AptRepository
use sophons.AptRepository.Laws.{is_safe, uri_to_filename_safe, apt_repository_in_place}

abbrev Installed : Type 0
Installed = List String

abbrev keep : Installed → Outcome (Unit {0}) × Installed
keep w = (ok tt, w)

abbrev packages : AptClient Installed
packages = record {
  check_for_updates = keep;
  clean_cache = keep;
  dist_upgrade = keep;
  upgrade_all = keep;
  install = λ names w. (ok tt, names ++ w);
  remove = λ names w. (ok tt, []);
  list_installed = λ w. ok w;
  lists_mod_time = λ w. ok 7;
  now = λ w. 9;
}

abbrev not_upgrading : Apt
not_upgrading = record {
  name = some ("git" ∷ []);
  state = "present";
  upgrade = "no";
  deb = "";
  clean = false;
  update_cache = some true;
  cache_valid_time = none;
}

to_install_iff_example :
    In "git" (to_install ("vim" ∷ []) ("git" ∷ "vim" ∷ []))
    ↔ (In "git" ("git" ∷ "vim" ∷ []) × ¬ In "git" ("vim" ∷ []))
to_install_iff_example = to_install_iff ("vim" ∷ []) ("git" ∷ "vim" ∷ []) "git"

abbrev same_line : List String → String → Option String
same_line [] line = none
same_line (r ∷ rs) line = let more = same_line rs line in if str_eq r line then some r else more

abbrev repositories : RepositoryClient Installed String
repositories = record {
  parse_config_folder = λ w. ok w;
  parse_config_line = λ line. some line;
  uri = λ r. r;
  find = same_line;
  add_repository = λ r file w. (ok tt, r ∷ w);
  remove_repository = λ r w. (ok tt, []);
  check_for_updates = keep;
  parse_url = λ url. ok (codes url, []);
}

abbrev tools : AptRepository
tools = record { repo = "deb tools"; state = "present"; update_cache = some false }

abbrev safe_name : List ℕ
safe_name = codes "a_org_b.list"

uri_to_filename_safe_example :
    (stem : List ℕ) × (safe_name ≡ stem ++ codes ".list") × All (λ c. is_safe c ≡ true) stem
unfolding AptRepository.uri_to_filename
uri_to_filename_safe_example = uri_to_filename_safe repositories "a.org/../b" safe_name refl

apt_repository_in_place_example :
    AptRepository.apply repositories tools ("deb tools" ∷ [])
    ≡ (ok tt, record { world = "deb tools" ∷ []; common = empty_result; extra = tt })
apt_repository_in_place_example =
    apt_repository_in_place repositories tools ("deb tools" ∷ []) ("deb tools" ∷ []) "deb tools"
      refl refl refl refl
