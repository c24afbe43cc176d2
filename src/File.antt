-- ===== src/File.antt =====
-- pkg/exec/file.go: the task `file`, with the states absent, directory, file, hard, link and touch.
pub mod Attributes
pub mod Apply
use sophons.Base.{
  ℕ, String, str_eq, Bool, true, false, not, ◌&&◌, ◌||◌, Option, none, some, List, [],
  if◌then◌else◌,
}
use sophons.Base.Action.{Error, message, Outcome, ok, err}
use sophons.Util.Mode.{ModeArg, text}

abbrev pub file_absent : String
file_absent = "absent"

abbrev pub file_directory : String
file_directory = "directory"

abbrev pub file_file : String
file_file = "file"

abbrev pub file_hard : String
file_hard = "hard"

abbrev pub file_link : String
file_link = "link"

abbrev pub file_touch : String
file_touch = "touch"

-- proto.File: the parameters that the task reads. `mode` is the value of the message Mode, if set.
pub record File : Type 0 where
  pub path : String
  pub state : String
  pub src : String
  pub owner : String
  pub group : String
  pub mode : Option String
  pub recurse : Bool
  pub follow : Option Bool

-- The fields of FileResult, and the variable `changed` of Apply. `mode` holds code points.
pub record FileResult : Type 0 where
  pub dest : String
  pub uid : ℕ
  pub gid : ℕ
  pub owner : String
  pub group : String
  pub mode : List ℕ
  pub path : String
  pub state : String
  pub size : ℕ
  pub changed : Bool

abbrev pub empty_file_result : FileResult
empty_file_result = record {
  dest = "";
  uid = 0;
  gid = 0;
  owner = "";
  group = "";
  mode = [];
  path = "";
  state = "";
  size = 0;
  changed = false;
}

-- f.Mode.GetValue(), as an `any`
abbrev pub mode_value : File → ModeArg
mode_value f = elim f.mode [ none ↦ text "" | some v ↦ text v ]

abbrev pub is_valid_state : String → Bool
is_valid_state s =
    str_eq s file_absent
    || str_eq s file_directory
    || str_eq s file_file
    || str_eq s file_hard
    || str_eq s file_link
    || str_eq s file_touch

unfoldable pub validate : File → Outcome (Unit {0})
validate f =
    if not (is_valid_state f.state)
    then err (message "invalid state")
    else if str_eq f.path ""
    then err (message "path is required")
    else if f.recurse && not (str_eq f.state file_directory)
    then err (message "recurse option requires state to be 'directory'")
    else if (str_eq f.state file_link || str_eq f.state file_hard) && str_eq f.src ""
    then err (message "src option is required when state is 'link' or 'hard'")
    else ok tt
