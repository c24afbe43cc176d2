-- ===== src/Playbook.antt =====
-- pkg/playbook/playbook.go, and `playbookApply` of cmd/executer/main.go.
pub mod Laws
pub mod Main
use sophons.Base.{
  String, str_eq, Bool, true, false, ◌||◌, Option, none, some, List, [], ◌∷◌, if◌then◌else◌,
}
use sophons.Base.Dict.{Dict, Names, has, lookup}
use sophons.Base.Action.{
  Error, message, Outcome, ok, err, panic, Action, read, pure, raise, wrapping, each, ◌>>=◌, ◌>>◌,
}
use sophons.Variables.{Variables, merge}
use sophons.Task.{Shared, Jinja, Contents, ProtoTask, Registration}
use sophons.Role.{Role, run_task, with_vars, role_apply}

pub record Play : Type 0 where
  pub hosts : String
  pub roles : List String
  pub tasks : List ProtoTask
  pub vars : Variables
  pub vars_files : List String

-- The node, the groups that it is in, the roles by name, and what the files give: LoadFromFile of a
-- variables file, whose name is relative to the playbook, and os.ReadFile with yaml.Unmarshal for
-- the playbook.
pub record Site (W : Type 0) : Type 0 where
  pub node : String
  pub groups : Names
  pub roles : Dict Role
  pub role_path : String → String
  pub play_path : String
  pub load_vars : String → W → Outcome Variables
  pub read_playbook : W → Outcome String
  pub unmarshal : String → Outcome (List Play)

unfoldable pub is_target : {W : Type 0} → Site W → Play → Bool
is_target site p = has p.hosts site.groups || str_eq p.hosts site.node

module _ {W C R : Type 0} (jinja : Jinja) (contents : Contents W C R) (types : Dict Registration)
    (site : Site W) where
  abbrev pub Run : Type 0 → Type 0
  Run A = Action (Shared W C) A

  -- The loop over the files of a play's variables.
  unfoldable pub load_files : Variables → List String → Run Variables
  load_files vars [] = pure vars
  load_files vars (file ∷ files) = do
    more ← wrapping "failed to load vars file for play" (read (λ s. site.load_vars file s.world))
    load_files (merge vars more) files

  abbrev found_role : String → Option Role → Run (Unit {0})
  found_role name none = raise (message "no such role")
  found_role name (some r) =
      wrapping "failed to apply role" (role_apply jinja contents types r (site.role_path name))

  unfoldable pub run_role : String → Run (Unit {0})
  unfolding role_apply
  run_role name = found_role name (lookup name site.roles)

  -- What a play runs, in the context of its variables.
  unfoldable pub run_roles_and_tasks : Play → Run (Unit {0})
  unfolding run_role run_task each
  run_roles_and_tasks p = do
    each run_role p.roles
    each (run_task jinja contents types site.play_path false) p.tasks

  -- The body of the loop over the plays, for a play that is for this node.
  unfoldable pub play_apply : Play → Run (Unit {0})
  unfolding load_files run_roles_and_tasks with_vars
  play_apply p s =
      (do
        vars ← load_files (merge (merge [] s.vars) p.vars) p.vars_files
        with_vars jinja contents types vars (run_roles_and_tasks p))
        s

  abbrev pub run_play : Play → Run (Unit {0})
  run_play p = if is_target site p then play_apply p else pure tt

  unfoldable pub plays_apply : List Play → Run (Unit {0})
  unfolding is_target play_apply each
  plays_apply plays = each run_play plays

  unfoldable pub playbook_apply : Run (Unit {0})
  unfolding plays_apply
  playbook_apply = do
    text ← wrapping "failed to read playbook" (read (λ s. site.read_playbook s.world))
    plays ← wrapping "failed to unmarshal playbook" (read (λ s. site.unmarshal text))
    plays_apply plays
