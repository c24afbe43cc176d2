-- ===== src/Tests/FileTasks.antt =====
-- The task `file` as the content of a task, and of a loop.
use sophons.Base.{String, ◌≡◌, refl, Bool, true, false, Option, none, some, List, [], ◌∷◌}
use sophons.Base.Action.{Error, Outcome, ok, err}
use sophons.Variables.{Any, Variables, text, boolean}
use sophons.Result.{CommonResult, empty_result}
use sophons.File.{File}
use sophons.Task.{Shared, Jinja, Task}
use sophons.Task.Execute.{LoopResult}
use sophons.Task.FileContents.{file_task_honest, file_loop_honest}
use sophons.Tests.{memory, disk, Disk}
use sophons.Tests.Files.{directory, make_existing}

abbrev plain_jinja : Jinja
plain_jinja = record { render = λ vars s. ok s; evaluate = λ vars s. ok none }

abbrev as_is : Variables → File → File × Option Error
as_is vars f = (f, none)

abbrev flag : CommonResult → Outcome Any
flag c = ok (boolean c.changed)

abbrev loop_flag : CommonResult → List CommonResult → Outcome Any
loop_flag c rs = ok (boolean c.changed)

abbrev make_srv : Task
make_srv = record { name = "make"; when = "true"; loop = none; content = some 0; register = "" }

abbrev start : Shared Disk File
start = record { world = disk; vars = []; heap = directory "/srv" ∷ [] }

file_task_honest_example : start.world ≡ disk
unfolding sophons.Task.Execute.process_and_run sophons.Base.Action.◌>>=◌ sophons.Task.at
    sophons.Task.Template.render_field sophons.Task.Template.process_when sophons.Task.put
    sophons.File.validate sophons.File.Apply.apply sophons.Result.checked sophons.File.Apply.exists
    sophons.Base.Dict.lookup sophons.Util.get_uid sophons.Util.get_gid sophons.File.Apply.dispatch
    sophons.File.Apply.apply_directory sophons.File.Apply.mark_and_update
    sophons.File.Attributes.needs_change sophons.File.Apply.finish sophons.File.Apply.later_steps
file_task_honest_example =
    file_task_honest memory plain_jinja as_is flag loop_flag make_existing
      (record { name = "make"; when = ""; loop = none; content = some 0; register = "" }) "" false
      start empty_result start refl refl

abbrev after_loop : Shared Disk File
after_loop = record {
  world = disk;
  vars = ("item", text "a") ∷ [];
  heap = directory "/srv" ∷ directory "/srv" ∷ [];
}

abbrev loop_result : LoopResult CommonResult
loop_result = record { common = empty_result; results = empty_result ∷ [] }

file_loop_honest_example : after_loop.world ≡ start.world
unfolding sophons.Task.Execute.run_items sophons.Base.Action.◌>>=◌ sophons.Task.at
    sophons.Task.Template.render_field sophons.Task.Template.process_when sophons.Task.put
    sophons.File.validate sophons.File.Apply.apply sophons.Result.checked sophons.File.Apply.exists
    sophons.Base.Dict.lookup sophons.Util.get_uid sophons.Util.get_gid sophons.File.Apply.dispatch
    sophons.File.Apply.apply_directory sophons.File.Apply.mark_and_update
    sophons.File.Attributes.needs_change sophons.File.Apply.finish sophons.File.Apply.later_steps
    sophons.Base.Dict.insert
file_loop_honest_example =
    file_loop_honest memory plain_jinja as_is flag loop_flag make_existing make_srv "" false
      (text "a" ∷ []) start loop_result after_loop refl refl
