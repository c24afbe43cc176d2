-- ===== src/Role/Load.antt =====
-- pkg/role/vars.go, pkg/role/tasks.go, and the discovery of roles in pkg/role/role.go.
pub mod Laws
use Prim.Native.String.{◌++◌ as append}
use sophons.Base.{
  String, str_eq, Bool, true, false, not, ◌||◌, Option, none, some, List, [], ◌∷◌, if◌then◌else◌,
}
use sophons.Base.Dict.{Dict, insert}
use sophons.Base.Action.{Error, wrapped, is_not_exist, Outcome, ok, err, panic, wrap, and_then}
use sophons.Variables.{Variables, merge}
use sophons.Task.{ProtoTask}
use sophons.Role.{Role}

pub record Entry : Type 0 where
  pub name : String
  pub is_dir : Bool

-- What fs.WalkDir hands to its callback.
pub record Walked : Type 0 where
  pub path : String
  pub dir : Bool
  pub error : Option Error

-- The file system of the roles, and yaml.Unmarshal.
pub record Files : Type 0 where
  pub read_file : String → Outcome String
  pub stat_is_dir : String → Outcome Bool
  pub read_dir : String → Outcome (List Entry)
  pub walk_dir : String → List Walked
  pub parse_vars : String → Outcome Variables
  pub parse_tasks : String → Outcome (List ProtoTask)

-- filepath.Join of a directory and a name
abbrev pub join : String → String → String
join root name = append (append root "/") name

-- What a read or a Stat leads to: where the file does not exist, `missing`.
abbrev pub or_missing :
    {A B : Type 0} → Outcome A → (Error → Error) → (A → Outcome B) → Outcome B → Outcome B
or_missing (ok a) context found missing = found a
or_missing (err e) context found missing = if is_not_exist e then missing else err (context e)
or_missing panic context found missing = panic

abbrev as_is : Error → Error
as_is e = e

abbrev when_dir : {A : Type 0} → Outcome A → Outcome A → Bool → Outcome A
when_dir dir file true = dir
when_dir dir file false = file

module _ (fs : Files) where
  -- The callback of WalkDir, for each file in turn.
  unfoldable pub merge_walked : Variables → List Walked → Outcome Variables
  merge_walked vars [] = ok vars
  merge_walked vars (entry ∷ entries) = elim entry.error [
    | some e ↦ err e
    | none ↦
        when_dir (merge_walked vars entries)
          (and_then (fs.read_file entry.path) λ content.
            and_then (fs.parse_vars content)
              λ file_vars. merge_walked (merge vars file_vars) entries)
          entry.dir
  ]

  -- processVars
  unfoldable pub process_vars : String → Outcome Variables
  unfolding merge_walked
  process_vars root = or_missing (fs.read_file (join root "main.yml")) as_is fs.parse_vars (
      or_missing (fs.read_file (join root "main.yaml")) as_is fs.parse_vars (
        or_missing (fs.stat_is_dir (join root "main")) as_is
          (when_dir (merge_walked [] (fs.walk_dir (join root "main")))
            (and_then (fs.read_file (join root "main")) fs.parse_vars))
          (ok [])))

  abbrev tasks_of : String → Outcome (List ProtoTask)
  tasks_of content = wrap "failed to unmarshal tasks" (fs.parse_tasks content)

  -- processTasks
  unfoldable pub process_tasks : String → Outcome (List ProtoTask)
  process_tasks root =
      or_missing (fs.read_file (join root "main.yml")) (wrapped "failed to read main.yml") tasks_of
        (or_missing (fs.read_file (join root "main.yaml")) (wrapped "failed to read main.yaml")
          tasks_of
          (or_missing (fs.stat_is_dir (join root "main")) (wrapped "failed to stat main")
            (when_dir (ok []) (
              and_then
                (wrap "failed to read content of main/ directory" (fs.read_file (join root "main")))
                tasks_of))
            (ok [])))

  -- The directory `defaults` or `vars` of a role: whether it is there, and its variables.
  unfoldable pub vars_in : String → Outcome (Bool × Variables)
  unfolding process_vars
  vars_in dir =
      or_missing (fs.stat_is_dir dir) as_is
        (λ is_dir. and_then (process_vars dir) (λ vars. ok (true, vars))) (ok (false, []))

  -- The directories that make a directory a role, though nothing is read from them.
  abbrev is_role_dir : String → Bool
  is_role_dir name =
      str_eq name "handlers"
      || str_eq name "templates"
      || str_eq name "files"
      || str_eq name "meta"
      || str_eq name "library"
      || str_eq name "module_utils"
      || str_eq name "lookup_plugins"

  abbrev with_tasks : Role × Bool → List ProtoTask → Role × Bool
  with_tasks (role, known) tasks = (record role { tasks = tasks }, true)

  -- The body of the loop over the entries of a role's directory.
  unfoldable pub add_entry : String → Role × Bool → Entry → Outcome (Role × Bool)
  unfolding process_tasks
  add_entry root (role, known) entry =
      if not entry.is_dir
      then ok (role, known)
      else if str_eq entry.name "tasks"
      then and_then (process_tasks (join root entry.name))
          (λ tasks. ok (with_tasks (role, known) tasks))
      else ok (role, known || is_role_dir entry.name)

  unfoldable pub add_entries : String → Role × Bool → List Entry → Outcome (Role × Bool)
  unfolding add_entry
  add_entries root acc [] = ok acc
  add_entries root acc (entry ∷ entries) =
      and_then (add_entry root acc entry) (λ acc'. add_entries root acc' entries)

  -- maybeRole
  unfoldable pub maybe_role : String → Outcome (Role × Bool)
  unfolding vars_in add_entries
  maybe_role name = and_then (vars_in (join name "defaults")) λ (has_defaults, defaults).
      and_then (vars_in (join name "vars")) λ (has_vars, vars).
        and_then (fs.read_dir name) λ entries.
          add_entries name
            (record { defaults = defaults; vars = vars; tasks = [] }, has_defaults || has_vars)
            entries

  abbrev add_role : String → Dict Role → Role × Bool → Dict Role
  add_role name roles (role, known) = if known then insert name role roles else roles

  -- The loop of DiscoverRoles.
  unfoldable pub discover_from : Dict Role → List Entry → Outcome (Dict Role)
  unfolding maybe_role
  discover_from roles [] = ok roles
  discover_from roles (entry ∷ entries) =
      when_dir
        (and_then (maybe_role entry.name)
          λ found. discover_from (add_role entry.name roles found) entries)
        (discover_from roles entries) entry.is_dir

  unfoldable pub discover_roles : Outcome (Dict Role)
  unfolding discover_from
  discover_roles = and_then (wrap "failed to discover roles" (fs.read_dir ".")) (discover_from [])
