-- ===== src/Task/Execute.antt =====
-- `processAndRunTask` and `ExecuteTask` of pkg/exec/task.go.
use sophons.Base.{
  ℕ, String, str_eq, Bool, not, Option, none, some, List, [], ◌∷◌, ◌++◌, if◌then◌else◌,
}
use sophons.Base.Dict.{insert}
use sophons.Base.Action.{
  Error, Outcome, ok, err, panic, Action, read, raise, pure, wrapping, ◌>>=◌, ◌>>◌,
}
use sophons.Variables.{Any}
use sophons.Result.{CommonResult, empty_result, task_changed, task_skipped, task_failed}
use sophons.Task.{Shared, Jinja, Contents, Task, at, put, deref, length}
use sophons.Task.Template.{process_when, render_field, process_any, loop_values}

pub record LoopResult (R : Type 0) : Type 0 where
  pub common : CommonResult
  pub results : List R

abbrev pub empty_loop : {R : Type 0} → LoopResult R
empty_loop = record { common = empty_result; results = [] }

-- The calls of TaskChanged, TaskSkipped and TaskFailed after one iteration.
abbrev pub marked : CommonResult → CommonResult → CommonResult
marked r c =
    let c1 = if r.changed then task_changed c else c in
    let c2 = if r.skipped then task_skipped c1 else c1 in if r.failed then task_failed c2 else c2

abbrev pub raise_some : {S : Type 0} → Option Error → Action S (Unit {0})
raise_some none = pure tt
raise_some (some e) = raise e

module _ {W C R : Type 0} (jinja : Jinja) (contents : Contents W C R) where
  abbrev pub Run : Type 0 → Type 0
  Run A = Action (Shared W C) A

  -- vars[key] = value
  unfoldable pub set_var : String → Any → Run (Unit {0})
  set_var key value s = (ok tt, record s { vars = insert key value s.vars })

  abbrev pub content_at : ℕ → Shared W C → Outcome C → Outcome (Unit {0}) × Shared W C
  content_at i s (ok c) =
      let (c', e) = contents.process s.vars c in raise_some e (record s { heap = put i c' s.heap })
  content_at i s (err e) = (err e, s)
  content_at i s panic = (panic, s)

  -- The fields of a content are processed in place, up to the first error.
  unfoldable pub process_content : Option ℕ → Run (Unit {0})
  process_content none s = (ok tt, s)
  process_content (some i) s = content_at i s (at i s.heap)

  abbrev field : String → Run String
  field f = read (λ s. render_field jinja s.vars f)

  -- ProcessJinjaTemplates of a task without a loop. It gives the condition, which is rendered too.
  unfoldable pub process_task : Task → Run String
  unfolding process_content
  process_task task = do
    field task.name
    when ← field task.when
    process_content task.content
    field task.register
    pure when

  unfoldable pub process_and_run : Task → String → Bool → Run R
  unfolding process_task
  process_and_run task parent is_role = do
    when ← wrapping "failed to process Jinja templating" (process_task task)
    holds ← wrapping "failed to process when condition" (read (λ s. process_when jinja s.vars when))
    if not holds then pure (contents.of_common empty_result) else (do
      c ← read (λ s. deref task.content s.heap)
      wrapping "validation failed" (read (λ s. contents.validate c))
      contents.apply c parent is_role)

  -- if task.Register != ""
  unfoldable pub register : String → Outcome Any → String → Run (Unit {0})
  unfolding set_var
  register name value context =
      if str_eq name ""
      then pure tt
      else (do v ← wrapping context (read (λ s. value)); set_var name v)

  abbrev pub copied : Shared W C → Outcome C → Outcome ℕ × Shared W C
  copied s (ok c) = (ok (length s.heap), record s { heap = s.heap ++ (contents.clone c ∷ []) })
  copied s (err e) = (err e, s)
  copied s panic = (panic, s)

  -- deepCopyContent: the copy's position is the first free one.
  unfoldable pub copy_content : Option ℕ → Run ℕ
  copy_content ref s = copied s (deref ref s.heap)

  abbrev pub iteration : Task → ℕ → Task
  iteration task i = record {
    name = task.name;
    when = "";
    loop = none;
    content = some i;
    register = "";
  }

  abbrev pub add_result : LoopResult R → R → LoopResult R
  add_result acc r = record {
    common = marked (contents.common r) acc.common;
    results = acc.results ++ (r ∷ []);
  }

  -- The body of the loop over the items.
  unfoldable pub run_item : Task → String → Bool → Any → Run R
  unfolding copy_content set_var process_and_run
  run_item task parent is_role item = do
    i ← wrapping "failed to copy task content" (copy_content task.content)
    set_var "item" item
    wrapping "failed to execute task" (process_and_run (iteration task i) parent is_role)

  unfoldable pub run_items : Task → String → Bool → LoopResult R → List Any → Run (LoopResult R)
  unfolding run_item
  run_items task parent is_role acc [] = pure acc
  run_items task parent is_role acc (item ∷ items) = do
    r ← run_item task parent is_role item
    run_items task parent is_role (add_result acc r) items

  unfoldable pub execute_once : Task → String → Bool → Run (Unit {0})
  unfolding process_and_run register
  execute_once task parent is_role = do
    r ← wrapping "failed to execute task" (process_and_run task parent is_role)
    register task.register (contents.to_map r) "failed to convert result to map"

  unfoldable pub execute_loop : Any → Task → String → Bool → Run (Unit {0})
  unfolding run_items register
  execute_loop loop task parent is_role = do
    value ←
        wrapping "failed to process Jinja templating for loop"
          (read (λ s. process_any jinja s.vars loop))
    items ← read (λ s. loop_values value)
    r ← run_items task parent is_role empty_loop items
    register task.register (contents.loop_to_map r.common r.results)
        "failed to convert loop result to map"

  unfoldable pub execute_task : Task → String → Bool → Run (Unit {0})
  unfolding execute_once execute_loop
  execute_task task parent is_role = elim task.loop [
    | none ↦ execute_once task parent is_role
    | some loop ↦ execute_loop loop task parent is_role
  ]
