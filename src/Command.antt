-- ===== src/Command.antt =====
-- pkg/exec/command_executor.go: what the tasks `command` and `shell` share. A process is started
-- through an interface, as in the program, where the tests replace it.
pub mod Apply
pub mod Shell
pub mod Runs
pub mod Laws
use sophons.Base.{
  ℕ, String, str_eq, Bool, true, false, not, ◌&&◌, Option, none, some, List, [], ◌∷◌, ◌++◌,
  is_empty, if◌then◌else◌,
}
use sophons.Base.Int.{ℤ, pos, minus_one}
use sophons.Base.Text.{codes}
use sophons.Base.Action.{Error, message, Outcome, ok, err, panic, Action, and_then}
use sophons.Os.{Os}

-- What the executor has been given when it runs. Texts are code points.
pub record Cmd : Type 0 where
  pub name : List ℕ
  pub args : List (List ℕ)
  pub dir : Option String
  pub stdin : Option (List ℕ)

-- The error of Run, with its exit code if it has the method ExitCode.
pub record RunError : Type 0 where
  pub error : Error
  pub exit_code : Option ℤ

pub record Ran : Type 0 where
  pub stdout : String
  pub stderr : String
  pub error : Option RunError

-- commandExecutor.Run, os.ExpandEnv and time.Now.
pub record Executor (W : Type 0) : Type 0 where
  pub start : Cmd → W → Ran × W
  pub expand_env : String → W → String
  pub now : W → ℕ

-- The parameters that proto.Command and proto.Shell have in common.
pub record Params : Type 0 where
  pub cmd : String
  pub argv : List String
  pub creates : String
  pub removes : String
  pub chdir : String
  pub stdin : String
  pub stdin_add_newline : Option Bool

abbrev pub wants_newline : Option Bool → Bool
wants_newline none = true
wants_newline (some b) = b

-- The results of ApplyCommand.
pub record Applied : Type 0 where
  pub stdout : String
  pub stderr : String
  pub rc : ℤ
  pub error : Option Error

abbrev pub rc_of : Option RunError → ℤ
rc_of none = pos 0
rc_of (some e) = elim e.exit_code [ none ↦ minus_one | some code ↦ code ]

abbrev pub error_of : Option RunError → Option Error
error_of none = none
error_of (some e) = some e.error

-- What is set on the executor before it runs.
unfoldable pub prepare : String → String → Option Bool → List ℕ → List (List ℕ) → Cmd
prepare chdir stdin add_newline name args = record {
  name = name;
  args = args;
  dir = if str_eq chdir "" then none else some chdir;
  stdin =
      if str_eq stdin ""
      then none
      else some (if wants_newline add_newline then codes stdin ++ (10 ∷ []) else codes stdin);
}

unfoldable pub apply_command :
    {W : Type 0}
    → Executor W
    → String
    → String
    → Option Bool
    → List ℕ
    → List (List ℕ)
    → W
    → Applied × W
unfolding prepare
apply_command x chdir stdin add_newline name args w =
    let (ran, w') = x.start (prepare chdir stdin add_newline name args) w in
    (
      record {
        stdout = ran.stdout;
        stderr = ran.stderr;
        rc = rc_of ran.error;
        error = error_of ran.error;
      },
      w',
    )

abbrev is_true : Option Bool → Bool
is_true none = false
is_true (some b) = b

unfoldable pub validate_cmd : List String → String → String → Option Bool → Outcome (Unit {0})
validate_cmd argv cmd stdin add_newline =
    if not (str_eq cmd "") && not (is_empty argv)
    then err (message "cmd and argv can't be both specified at the same time")
    else if str_eq cmd "" && is_empty argv
    then err (message "either cmd or argv need to be specified")
    else if str_eq stdin "" && is_true add_newline
    then err (message "stdin_add_newline can't be set if stdin is unset")
    else ok tt

unfoldable pub validate : Params → Outcome (Unit {0})
unfolding validate_cmd
validate p = validate_cmd p.argv p.cmd p.stdin p.stdin_add_newline

unfoldable pub should_apply : (os : Os) → String → String → os.World → Outcome Bool
should_apply os creates removes w =
    if not (str_eq creates "")
    then and_then (os.glob creates w) (λ found. ok (is_empty found))
    else if not (str_eq removes "")
    then and_then (os.glob removes w) (λ found. ok (not (is_empty found)))
    else ok true
