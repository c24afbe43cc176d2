-- ===== src/Include.antt =====
-- pkg/exec/include_tasks.go and import_tasks.go: a task that runs the tasks of a file. The two have
-- the same methods, and the tasks of a file may include files in turn.
pub mod Termination
pub mod Laws
use sophons.Base.{
  ℕ, zero, suc, ◌≡◌, refl, ◌⊎◌, inl, inr, String, str_eq, Bool, Option, none, some, List, [], ◌∷◌,
  if◌then◌else◌,
}
use sophons.Base.Action.{
  Error, message, Outcome, ok, err, panic, Action, and_then, wrap, read, raise, pure, wrapping,
  each, ◌>>=◌, ◌>>◌,
}
use sophons.Variables.{Any}
use sophons.Result.{empty_result}
use sophons.Proto.Tasks.{MessageTask}
use sophons.Task.{Shared, Jinja, Contents}
use sophons.Task.Template.{render_field, process_any}
use sophons.Task.Execute.{raise_some}

-- What a content is: another task, or one that includes or imports a file.
pub data Kind : Type 0 where
  other : Kind
  includes : String → Kind
  imports : String → Kind

pub kind-cases :
    (k : Kind) → (k ≡ other) ⊎ ((file : String) × ((k ≡ includes file) ⊎ (k ≡ imports file)))
kind-cases other = inl refl
kind-cases (includes file) = inr (file, inl refl)
kind-cases (imports file) = inr (file, inr refl)

-- os.ReadFile and filepath.Join, the reading of a file's tasks from YAML, which makes messages of
-- type M, what FromProto makes of a message, and the kind of a content.
pub record TaskFiles (W M C : Type 0) : Type 0 where
  pub join : String → String → String
  pub read_file : String → W → Outcome String
  pub unmarshal : String → Outcome (List (MessageTask M))
  pub adapt : M → Outcome C
  pub kind_of : C → Kind

module _ {W M C R : Type 0} (jinja : Jinja) (contents : Contents W C R)
    (files : TaskFiles W M C) where
  abbrev pub Run : Type 0 → Type 0
  Run A = Action (Shared W C) A

  -- IncludeTasks.Validate
  unfoldable pub validate : String → Outcome (Unit {0})
  validate file = if str_eq file "" then err (message "`file` is required") else ok tt

  abbrev pub task_path : String → Bool → String → String
  task_path parent is_role file =
      if is_role then files.join (files.join parent "tasks") file else files.join parent file

  unfoldable pub read_tasks : String → W → Outcome (List (MessageTask M))
  read_tasks path w =
      and_then (wrap "failed to read tasks" (files.read_file path w))
        (λ text. wrap "failed to parse tasks" (files.unmarshal text))

  abbrev pub field : String → Run String
  field f = read (λ s. render_field jinja s.vars f)

  -- A loop that is nil is left alone.
  abbrev pub process_loop : Option Any → Run (Unit {0})
  process_loop none = pure tt
  process_loop (some loop) = do read (λ s. process_any jinja s.vars loop); pure tt

  -- The processing of a content in place, up to the first error.
  abbrev pub process : C → Run C
  process c = do p ← read (λ s. ok (contents.process s.vars c)); raise_some p.1; pure p.0

  -- ProcessJinjaTemplates of a task, in the order of its fields. It gives the content.
  unfoldable pub process_fields : MessageTask M → C → Run C
  process_fields task content = do
    field task.name
    field task.when
    process_loop task.loop
    c ← process content
    field task.register
    pure c

  -- FromProto and ProcessJinjaTemplates
  unfoldable pub prepare : MessageTask M → Run C
  unfolding process_fields
  prepare task = do
    content ← wrapping "failed to convert task" (read (λ s. files.adapt task.content))
    wrapping "failed to render Jinja templating" (process_fields task content)

  -- The body of the loop over the tasks of a file, whose contents are applied by `applied`.
  unfoldable pub run_task :
      (C → String → Bool → Run R) → String → Bool → MessageTask M → Run (Unit {0})
  unfolding prepare
  run_task applied parent is_role task = do
    c ← prepare task
    wrapping "failed to validate task" (read (λ s. contents.validate c))
    wrapping "failed to apply task" (applied c parent is_role)
    pure tt

  -- IncludeTasks.Apply
  unfoldable pub include : (C → String → Bool → Run R) → String → String → Bool → Run R
  unfolding read_tasks run_task each
  include applied file parent is_role = do
    tasks ← read (λ s. read_tasks (task_path parent is_role file) s.world)
    each (run_task applied parent is_role) tasks
    pure (contents.of_common empty_result)

  -- ImportTasks.Apply, which is the same line for line.
  abbrev pub import_file : (C → String → Bool → Run R) → String → String → Bool → Run R
  import_file applied file parent is_role = include applied file parent is_role

  abbrev pub on_kind : Kind → Run R → (String → Run R) → (String → Run R) → Run R
  on_kind other leaf included imported = leaf
  on_kind (includes file) leaf included imported = included file
  on_kind (imports file) leaf included imported = imported file

  -- Task.Apply, with files nested to the depth of the fuel; `deeper` stands for the outcome beyond
  -- it.
  unfoldable pub apply_content : Outcome R → ℕ → C → String → Bool → Run R
  unfolding include
  apply_content deeper zero c parent is_role =
      on_kind (files.kind_of c) (contents.apply c parent is_role) (λ file s. (deeper, s))
        (λ file s. (deeper, s))
  apply_content deeper (suc fuel) c parent is_role =
      on_kind (files.kind_of c) (contents.apply c parent is_role)
        (λ file. include (apply_content deeper fuel) file parent is_role)
        (λ file. import_file (apply_content deeper fuel) file parent is_role)
