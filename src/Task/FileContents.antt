-- ===== src/Task/FileContents.antt =====
-- The task `file` as the content of a task.
use sophons.Base.{ℕ, String, ◌≡◌, refl, sym, ap, ◌∙◌, Bool, true, false, Option, List}
use sophons.Base.Action.{Error, Outcome, ok, err, panic, err≢ok, panic≢ok, ok-injective}
use sophons.Variables.{Any, Variables}
use sophons.Os.{Os}
use sophons.Result.{State, CommonResult}
use sophons.File.{File, validate, FileResult}
use sophons.File.Apply.{apply, exists}
use sophons.File.Apply.Honest.{apply_honest}
use sophons.Task.{Shared, Jinja, Contents, Task}
use sophons.Task.Execute.{LoopResult, empty_loop, process_and_run, run_items}
use sophons.Task.Honest.{IsHonest, process_and_run_honest, run_items_honest}

-- `Apply` gives its result beside the error, and its caller drops the result where there is one.
abbrev result_of : Outcome (Unit {0}) → CommonResult → Outcome CommonResult
result_of (ok u) c = ok c
result_of (err e) c = err e
result_of panic c = panic

module _ (os : Os) where
  abbrev in_shared :
      Outcome (Unit {0}) × State os.World FileResult
      → Shared os.World File
      → Outcome CommonResult × Shared os.World File
  in_shared (r, st) s = (result_of r st.common, record s { world = st.world })

  -- The methods of File as a TaskContent; the rendering of its fields and YAML are parameters.
  abbrev pub file_contents :
      (Variables → File → File × Option Error)
      → (CommonResult → Outcome Any)
      → (CommonResult → List CommonResult → Outcome Any)
      → Contents os.World File CommonResult
  file_contents process to_map loop_to_map = record {
    validate = validate;
    apply = λ f parent is_role s. in_shared (apply os f s.world) s;
    process = process;
    clone = λ f. f;
    common = λ c. c;
    of_common = λ c. c;
    to_map = to_map;
    loop_to_map = loop_to_map;
  }

  result_of-ok :
      (q : Outcome (Unit {0})) (c : CommonResult) (r : CommonResult)
      → result_of q c ≡ ok r
      → (q ≡ ok tt) × (c ≡ r)
  result_of-ok (ok u) c r h = (refl, ok-injective h)
  result_of-ok (err e) c r h = absurd (err≢ok h)
  result_of-ok panic c r h = absurd (panic≢ok h)

  -- The task `file` fills the interface of contents that are honest about changes, if MkdirAll does
  -- nothing where it succeeds on a path that exists.
  pub file_contents-IsHonest :
      (process : Variables → File → File × Option Error) (to_map : CommonResult → Outcome Any)
      (loop_to_map : CommonResult → List CommonResult → Outcome Any)
      → ((path : String) (mode : ℕ) (v : os.World)
          → exists os path v ≡ ok true
          → (os.mkdir_all path mode v).0 ≡ ok tt
          → (os.mkdir_all path mode v).1 ≡ v)
      → IsHonest (file_contents process to_map loop_to_map)
  file_contents-IsHonest process to_map loop_to_map existing = record {
    unchanged = λ f parent is_role s r s' h unchanged.
        let (q, st) = apply os f s.world in
        let (done, same) = result_of-ok q st.common r (ap (λ x. x.0) h) in
        ap (λ x. x.1.world) (sym h)
        ∙ apply_honest os f s.world existing done (ap (λ c. c.changed) same ∙ unchanged);
  }

  module _ (jinja : Jinja) (process : Variables → File → File × Option Error)
      (to_map : CommonResult → Outcome Any)
      (loop_to_map : CommonResult → List CommonResult → Outcome Any)
      (existing : (path : String) (mode : ℕ) (v : os.World)
        → exists os path v ≡ ok true
        → (os.mkdir_all path mode v).0 ≡ ok tt
        → (os.mkdir_all path mode v).1 ≡ v) where
    -- A task with the content `file`, without a loop: where it returns and its result does not say
    -- `changed`, the machine is as it was before its templates and its condition were looked at.
    -- MkdirAll is taken to do nothing where it succeeds on a path that exists.
    pub file_task_honest :
        (task : Task) (parent : String) (is_role : Bool) (s : Shared os.World File)
        (r : CommonResult) (s' : Shared os.World File)
        → process_and_run jinja (file_contents process to_map loop_to_map) task parent is_role s
          ≡ (ok r, s')
        → r.changed ≡ false
        → s'.world ≡ s.world
    file_task_honest =
        process_and_run_honest jinja (file_contents process to_map loop_to_map)
          (file_contents-IsHonest process to_map loop_to_map existing)

    -- A loop over a task with the content `file`: where it returns and the result of the loop does
    -- not say `changed`, none of its items has changed the machine. MkdirAll is taken to do nothing
    -- where it succeeds on a path that exists.
    pub file_loop_honest :
        (task : Task) (parent : String) (is_role : Bool) (items : List Any)
        (s : Shared os.World File) (r : LoopResult CommonResult) (s' : Shared os.World File)
        → run_items jinja
            (file_contents process to_map loop_to_map)
            task
            parent
            is_role
            empty_loop
            items
            s
          ≡ (ok r, s')
        → r.common.changed ≡ false
        → s'.world ≡ s.world
    file_loop_honest task parent is_role =
        run_items_honest jinja (file_contents process to_map loop_to_map)
          (file_contents-IsHonest process to_map loop_to_map existing) task parent is_role
          empty_loop
