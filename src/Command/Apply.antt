-- ===== src/Command/Apply.antt =====
-- pkg/exec/command.go: the task `command`.
use sophons.Base.{
  ℕ, ◌-◌, String, str_eq, Bool, not, Option, none, some, List, [], ◌∷◌, map, if◌then◌else◌,
}
use sophons.Base.Text.{codes, fields}
use sophons.Base.Action.{Error, wrapped, Outcome, ok, panic, Action, wrapping, ◌>>=◌, ◌>>◌}
use sophons.Os.{Os}
use sophons.Result.{
  CommonResult, State, mark_changed, mark_skipped, set_common, set_extra, fail, query, observe,
  perform, checked, run,
}
use sophons.Command.{Executor, Params, Applied, apply_command, should_apply}

pub record CommandResult : Type 0 where
  pub cmd : List (List ℕ)
  pub start : ℕ
  pub finish : ℕ
  pub delta : ℕ

abbrev pub empty_command_result : CommandResult
empty_command_result = record { cmd = []; start = 0; finish = 0; delta = 0 }

-- name = words[0]; args = words[1:]
unfoldable pub first_word : List (List ℕ) → Outcome (List ℕ × List (List ℕ))
first_word [] = panic
first_word (name ∷ args) = ok (name, args)

abbrev pub fill : Applied → CommonResult → CommonResult
fill a c = record c { stdout = a.stdout; stderr = a.stderr; rc = a.rc }

module _ (os : Os) (x : Executor os.World) where
  abbrev pub Task : Type 0 → Type 0
  Task A = Action (State os.World CommandResult) A

  abbrev expanded : Bool → String → os.World → String
  expanded on s w = if on then x.expand_env s w else s

  -- The command line: the fields of `cmd`, or else `argv`.
  unfoldable pub words : Params → Bool → os.World → Outcome (List ℕ × List (List ℕ))
  unfolding first_word
  words p expand w =
      if not (str_eq p.cmd "")
      then first_word (fields (codes (expanded expand p.cmd w)))
      else elim p.argv [
        | [] ↦ ok ([], [])
        | a ∷ argv ↦ first_word (map (λ arg. codes (expanded expand arg w)) (a ∷ argv))
      ]

  abbrev pub end_of : Option Error → Task (Unit {0})
  end_of (some e) = fail (wrapped "failed to execute command" e)
  end_of none = mark_changed

  -- From `start := time.Now()` on.
  unfoldable pub run_words : Params → List ℕ → List (List ℕ) → Task (Unit {0})
  run_words p name args = do
    start ← observe x.now
    a ← perform (apply_command x p.chdir p.stdin p.stdin_add_newline name args)
    finish ← observe x.now
    set_extra (λ r. record r { start = start; finish = finish; delta = finish - start })
    set_common (fill a)
    end_of a.error

  unfoldable pub check_and_run : Params → List ℕ → List (List ℕ) → Task (Unit {0})
  unfolding run_words
  check_and_run p name args = do
    set_extra (λ r. record r { cmd = name ∷ args })
    go ←
        checked
          (wrapping "failed to check creates/removes" (query (should_apply os p.creates p.removes)))
    if not go then mark_skipped else run_words p name args

  -- A panic in the first step ends the method.
  unfoldable pub apply_body : Params → Bool → Task (Unit {0})
  unfolding check_and_run
  apply_body p expand = do
    (name, args) ← checked (query (words p expand))
    check_and_run p name args

  unfoldable pub apply :
      Params → Bool → os.World → Outcome (Unit {0}) × State os.World CommandResult
  unfolding apply_body
  apply p expand w = run (apply_body p expand) empty_command_result w
