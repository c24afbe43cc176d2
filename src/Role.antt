-- ===== src/Role.antt =====
-- `Role` and `Role.Apply` of pkg/role/role.go.
pub mod Load
pub mod Laws
use sophons.Base.{String, Bool, true, false, Option, List, [], ◌∷◌}
use sophons.Base.Dict.{Dict}
use sophons.Base.Action.{Outcome, ok, err, panic, Action, read, pure, wrapping, each, ◌>>=◌, ◌>>◌}
use sophons.Variables.{Variables, merge}
use sophons.Task.{Shared, Jinja, Contents, ProtoTask, Registration, from_proto}
use sophons.Task.Execute.{execute_task}

pub record Role : Type 0 where
  pub defaults : Variables
  pub vars : Variables
  pub tasks : List ProtoTask

-- roleCtxVars
unfoldable pub role_vars : Role → Variables → Variables
role_vars r play = merge (merge (merge [] r.defaults) play) r.vars

module _ {W C R : Type 0} (jinja : Jinja) (contents : Contents W C R)
    (types : Dict Registration) where
  abbrev Run : Type 0 → Type 0
  Run A = Action (Shared W C) A

  -- The body of the loops over the tasks of a role and of a play.
  unfoldable pub run_task : String → Bool → ProtoTask → Run (Unit {0})
  unfolding from_proto execute_task
  run_task parent is_role p = do
    task ← wrapping "failed to convert task" (read (λ s. from_proto types p))
    wrapping "failed to execute task" (execute_task jinja contents task parent is_role)

  -- A context with another map of variables, for as long as `m` runs.
  unfoldable pub with_vars : {A : Type 0} → Variables → Run A → Run A
  with_vars vars m s =
      let (r, s') = m (record s { vars = vars }) in (r, record s' { vars = s.vars })

  abbrev pub merge_after : Variables → Run (Unit {0})
  merge_after vars s = (ok tt, record s { vars = merge s.vars vars })

  unfoldable pub role_apply : Role → String → Run (Unit {0})
  unfolding role_vars run_task with_vars each
  role_apply r parent s =
      (with_vars (role_vars r s.vars) (each (run_task parent true) r.tasks) >> merge_after r.vars) s
