-- ===== src/Command/Shell.antt =====
-- pkg/exec/shell.go: the task `shell`, which hands one string to a shell.
use sophons.Base.{
  ℕ, ◌-◌, String, str_eq, not, Option, none, some, List, [], ◌∷◌, ◌++◌, is_empty, if◌then◌else◌,
}
use sophons.Base.Text.{codes}
use sophons.Base.Action.{Error, wrapped, Outcome, Action, wrapping, ◌>>=◌, ◌>>◌}
use sophons.Os.{Os}
use sophons.Result.{
  State, mark_changed, mark_skipped, set_common, set_extra, fail, query, observe, perform, checked,
  run,
}
use sophons.Command.{Executor, Params, apply_command, should_apply}
use sophons.Command.Apply.{fill}

-- `Cmd` is one string here.
pub record ShellResult : Type 0 where
  pub cmd : List ℕ
  pub start : ℕ
  pub finish : ℕ
  pub delta : ℕ

abbrev pub empty_shell_result : ShellResult
empty_shell_result = record { cmd = []; start = 0; finish = 0; delta = 0 }

-- strings.Join(argv, " ")
unfoldable pub join_words : List String → List ℕ
join_words [] = []
join_words (a ∷ []) = codes a
join_words (a ∷ argv) = codes a ++ (32 ∷ join_words argv)

unfoldable pub shell_name : String → List ℕ
shell_name executable = if str_eq executable "" then codes "/bin/sh" else codes executable

unfoldable pub cmd_str : Params → List ℕ
unfolding join_words
cmd_str p =
    if not (str_eq p.cmd "") then codes p.cmd else if is_empty p.argv then [] else join_words p.argv

module _ (os : Os) (x : Executor os.World) where
  abbrev pub Task : Type 0 → Type 0
  Task A = Action (State os.World ShellResult) A

  abbrev pub end_of : Option Error → Task (Unit {0})
  end_of (some e) = fail (wrapped "failed to execute command" e)
  end_of none = mark_changed

  unfoldable pub run_line : Params → List ℕ → List ℕ → Task (Unit {0})
  run_line p name line = do
    start ← observe x.now
    a ← perform (apply_command x p.chdir p.stdin p.stdin_add_newline name (codes "-c" ∷ line ∷ []))
    finish ← observe x.now
    set_extra (λ r. record r { start = start; finish = finish; delta = finish - start })
    set_common (fill a)
    end_of a.error

  unfoldable pub apply_body : Params → String → Task (Unit {0})
  unfolding run_line cmd_str shell_name
  apply_body p executable = do
    set_extra (λ r. record r { cmd = cmd_str p })
    go ←
        checked
          (wrapping "failed to check creates/removes" (query (should_apply os p.creates p.removes)))
    if not go then mark_skipped else run_line p (shell_name executable) (cmd_str p)

  unfoldable pub apply :
      Params → String → os.World → Outcome (Unit {0}) × State os.World ShellResult
  unfolding apply_body
  apply p executable w = run (apply_body p executable) empty_shell_result w
