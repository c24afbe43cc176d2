-- ===== src/Tests/Plays.antt =====
-- Tasks, roles and plays, on a machine that is the list of what has been applied.
use sophons.Base.{
  ℕ, String, str_eq, ◌≡◌, refl, Bool, true, false, ◌||◌, Option, none, some, List, [], ◌∷◌, leb,
  if◌then◌else◌,
}
use sophons.Base.Dict.{Dict, lookup, or_else}
use sophons.Base.Action.{Error, Outcome, ok, err, message, and_then}
use sophons.Variables.{Any, text, strings, boolean}
use sophons.Result.{CommonResult, empty_result, task_changed}
use sophons.Task.{Shared, Jinja, Contents, Task, ProtoTask, ProtoContent, Registration, length}
use sophons.Task.Template.{process_any, loop_values, process_when, texts}
use sophons.Task.Execute.{process_and_run, LoopResult, run_items, execute_task, execute_once}
use sophons.Task.Laws.{
  InTurn, any_of, templated_loop, loop_ignores_when, run_items_accumulates, execute_once_registers,
}
use sophons.Role.{Role}
use sophons.Role.Load.{Files, Walked, merge_walked}
use sophons.Role.Load.Laws.{in_last, merge_walked_value}
use sophons.Playbook.{Play, Site, plays_apply}
use sophons.Playbook.Laws.{plays_apply_vars}

-- Every template gives its own text, and every expression the list of one word.
abbrev pub plain_jinja : Jinja
plain_jinja = record {
  render = λ vars s. ok s;
  evaluate = λ vars s. ok (some (strings ("one" ∷ [])));
}

abbrev pub words : Contents (List String) String CommonResult
words = record {
  validate = λ c. ok tt;
  apply = λ c parent is_role s. (ok (task_changed empty_result), record s { world = c ∷ s.world });
  process = λ vars c. (c, none);
  clone = λ c. c;
  common = λ r. r;
  of_common = λ r. r;
  to_map = λ r. ok (boolean r.changed);
  loop_to_map = λ c rs. ok (boolean c.changed);
}

abbrev start : Shared (List String) String
start = record { world = []; vars = ("region", text "eu") ∷ []; heap = "hello" ∷ [] }

abbrev greet : String → Task
greet when = record { name = ""; when = when; loop = none; content = some 0; register = "greeting" }

templated_loop_example :
    and_then (process_any plain_jinja [] (text "{{ l }}")) loop_values
    ≡ err (message "loop variable is not a list")
unfolding sophons.Task.Template.render_to_slice
templated_loop_example = templated_loop plain_jinja [] "{{ l }}" ("one" ∷ []) refl

loop_ignores_when_example :
    execute_task plain_jinja words
      (record (greet "") { loop = some (strings ("a" ∷ [])); when = "false" })
      ""
      false
    ≡ execute_task plain_jinja words
        (record (greet "") { loop = some (strings ("a" ∷ [])) })
        ""
        false
loop_ignores_when_example =
    loop_ignores_when plain_jinja words (greet "") "false" (strings ("a" ∷ [])) "" false

abbrev words_to_greet : List Any
words_to_greet = text "a" ∷ text "b" ∷ []

abbrev two_changed : LoopResult CommonResult
two_changed = record {
  common = task_changed empty_result;
  results = task_changed empty_result ∷ task_changed empty_result ∷ [];
}

abbrev after_two : Shared (List String) String
after_two = record {
  world = "hello" ∷ "hello" ∷ [];
  vars = ("region", text "eu") ∷ ("item", text "b") ∷ [];
  heap = "hello" ∷ "hello" ∷ "hello" ∷ [];
}

run_items_accumulates_example :
    InTurn plain_jinja words (greet "") "" false words_to_greet two_changed.results start after_two
    × (two_changed.common.changed ≡ any_of (λ (x : CommonResult). x.changed) two_changed.results)
    × (two_changed.common.skipped ≡ any_of (λ (x : CommonResult). x.skipped) two_changed.results)
    × (two_changed.common.failed ≡ any_of (λ (x : CommonResult). x.failed) two_changed.results)
unfolding run_items sophons.Base.Action.◌>>=◌ sophons.Task.at sophons.Task.Template.render_field
    process_when sophons.Task.put sophons.Base.Dict.insert
run_items_accumulates_example =
    run_items_accumulates plain_jinja words (greet "") "" false words_to_greet start two_changed
      after_two refl

abbrev greeted : Shared (List String) String
greeted = record {
  world = "hello" ∷ [];
  vars = ("region", text "eu") ∷ ("greeting", boolean true) ∷ [];
  heap = "hello" ∷ [];
}

execute_once_registers_example :
    (r : CommonResult) × (v : Any) × (s1 : Shared (List String) String) × (process_and_run
        plain_jinja words
        (greet "")
        ""
        false
        start
      ≡ (ok r, s1))
    × (ok (boolean r.changed) ≡ ok v)
    × (lookup "greeting" greeted.vars ≡ some v)
    × (greeted.world ≡ s1.world)
unfolding execute_once sophons.Base.Action.◌>>=◌ sophons.Task.Template.render_field sophons.Task.at
    process_when sophons.Task.put sophons.Base.Dict.insert
execute_once_registers_example =
    execute_once_registers plain_jinja words (greet "") "" false start greeted refl refl

abbrev greeting : ProtoTask
greeting = record {
  name = "";
  when = "";
  loop = none;
  content = some (record { kind = "word"; position = 0 });
  register = "greeting";
}

abbrev pub known : Dict Registration
known = ("word", record { exec_adapter = some (λ c. some c.position) }) ∷ []

abbrev greeter : Role
greeter = record {
  defaults = ("region", text "us") ∷ ("port", text "80") ∷ [];
  vars = ("user", text "web") ∷ [];
  tasks = greeting ∷ [];
}

abbrev tree : Files
tree = record {
  read_file = λ path. ok path;
  stat_is_dir = λ path. ok true;
  read_dir = λ path. ok [];
  walk_dir = λ path. [];
  parse_vars = λ content. ok (("file", text content) ∷ []);
  parse_tasks = λ content. ok [];
}

abbrev walked : List Walked
walked =
    record { path = "a.yml"; dir = false; error = none }
    ∷ record { path = "b.yml"; dir = false; error = none }
    ∷ []

merge_walked_value_example :
    lookup "file" (("file", text "b.yml") ∷ [])
    ≡ or_else (in_last tree "file" walked) (lookup "file" [])
unfolding merge_walked sophons.Base.Dict.copy
merge_walked_value_example =
    merge_walked_value tree [] walked "file" (("file", text "b.yml") ∷ []) refl

abbrev pub play : String → Play
play hosts = record {
  hosts = hosts;
  roles = [];
  tasks = greeting ∷ [];
  vars = ("user", text "root") ∷ [];
  vars_files = [];
}

abbrev site : Site (List String)
site = record {
  node = "web1";
  groups = ("all", tt) ∷ [];
  roles = [];
  role_path = λ name. name;
  play_path = "plays";
  load_vars = λ file w. ok [];
  read_playbook = λ w. ok "";
  unmarshal = λ s. ok [];
}

abbrev plays : List Play
plays = play "databases" ∷ play "web1" ∷ []

plays_apply_vars_example :
    (plays_apply plain_jinja words known site plays start).1.vars ≡ start.vars
plays_apply_vars_example = plays_apply_vars plain_jinja words known site plays start
