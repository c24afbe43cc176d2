-- ===== src/Apt.antt =====
-- pkg/exec/apt.go: the task `apt`, over the interface aptClient of pkg/exec/apt_client.go.
pub mod Cache
pub mod Apply
pub mod Laws
use sophons.Base.{
  ℕ, String, str_eq, Bool, true, false, not, ◌&&◌, ◌||◌, Option, none, some, List, [], ◌∷◌,
  is_empty, if◌then◌else◌,
}
use sophons.Base.Action.{message, Outcome, ok, err, Action}

abbrev pub apt_absent : String
apt_absent = "absent"

abbrev pub apt_latest : String
apt_latest = "latest"

abbrev pub apt_present : String
apt_present = "present"

abbrev pub upgrade_yes : String
upgrade_yes = "yes"

abbrev pub upgrade_full : String
upgrade_full = "full"

abbrev pub upgrade_dist : String
upgrade_dist = "dist"

abbrev pub upgrade_safe : String
upgrade_safe = "safe"

abbrev pub upgrade_no : String
upgrade_no = "no"

-- proto.Apt: the parameters that the task reads. `name` is PackageList.Items, if the list is set.
pub record Apt : Type 0 where
  pub name : Option (List String)
  pub state : String
  pub upgrade : String
  pub deb : String
  pub clean : Bool
  pub update_cache : Option Bool
  pub cache_valid_time : Option ℕ

-- The calls of aptClient and of fs.Stat(aptFS, "lists"), whose ModTime is in nanoseconds. Packages
-- go by their names. The text that a call of the client prints is left out.
pub record AptClient (W : Type 0) : Type 0 where
  pub check_for_updates : Action W (Unit {0})
  pub clean_cache : Action W (Unit {0})
  pub dist_upgrade : Action W (Unit {0})
  pub upgrade_all : Action W (Unit {0})
  pub install : List String → Action W (Unit {0})
  pub remove : List String → Action W (Unit {0})
  pub list_installed : W → Outcome (List String)
  pub lists_mod_time : W → Outcome ℕ
  pub now : W → ℕ

-- a.Name.Items, where no list counts as an empty one
abbrev pub names : Apt → List String
names a = elim a.name [ none ↦ [] | some items ↦ items ]

abbrev is_supported_upgrade : String → Bool
is_supported_upgrade u =
    str_eq u upgrade_yes
    || str_eq u upgrade_no
    || str_eq u upgrade_full
    || str_eq u upgrade_dist
    || str_eq u upgrade_safe
    || str_eq u ""

abbrev is_supported_state : String → Bool
is_supported_state s =
    str_eq s apt_absent || str_eq s apt_present || str_eq s apt_latest || str_eq s ""

unfoldable pub validate : Apt → Outcome (Unit {0})
validate a =
    if not (is_supported_upgrade a.upgrade)
    then err (message "unsupported upgrade mode")
    else if not (is_supported_state a.state)
    then err (message "unsupported state")
    else ok tt
