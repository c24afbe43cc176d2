-- ===== src/Tests/Commands.antt =====
-- The tasks `command` and `shell`, on a machine where every process prints "done".
use sophons.Base.{
  ℕ, str_eq, if◌then◌else◌, String, ◌≡◌, ◌≢◌, refl, ◌↔◌, ◌⊎◌, Bool, true, false, not, Option, none,
  some, is_some, List, [], ◌∷◌,
}
use sophons.Base.Text.{codes, fields}
use sophons.Base.Action.{panic}
use sophons.Command.{Executor, Params, Ran, validate}
use sophons.Command.Apply
use sophons.Command.Runs.{Line, from_cmd, always}
use sophons.Command.Laws.{Done, blank_cmd_panics, command_runs}
use sophons.Tests.{memory, disk, Disk}

abbrev printed : Ran
printed = record { stdout = "done"; stderr = ""; error = none }

abbrev printer : Executor Disk
printer = record {
  start = λ c w. (printed, ("/done", 0o644) ∷ w);
  expand_env = λ s w. if str_eq s "$NOTHING" then " " else s;
  now = λ w. 0;
}

abbrev command : String → String → String → Params
command cmd creates removes = record {
  cmd = cmd;
  argv = [];
  creates = creates;
  removes = removes;
  chdir = "";
  stdin = "";
  stdin_add_newline = none;
}

abbrev listing : Params
listing = command "ls -l" "" ""

blank_cmd_panics_example :
    ((Apply.apply memory printer (command "$NOTHING" "" "") true disk).0 ≡ panic)
    × ((Apply.apply memory printer (command "$NOTHING" "" "") true disk).1.world ≡ disk)
unfolding validate sophons.Base.Text.is_space
blank_cmd_panics_example =
    blank_cmd_panics memory printer (command "$NOTHING" "" "") true disk refl (cc) (refl, tt)

abbrev ls_args : List (List ℕ)
ls_args = codes "-l" ∷ []

listing-Line : Line memory printer listing false disk (codes "ls") ls_args
unfolding fields
listing-Line = from_cmd (cc) refl

command_runs_example :
    Done memory printer listing
      (codes "ls")
      ls_args
      disk
      (Apply.apply memory printer listing false disk).1
      true
command_runs_example =
    command_runs memory printer listing false (codes "ls") ls_args disk true listing-Line
      (always refl refl)
